-- ===== src/S3.antt =====
-- s3_backend.py: the files of a virtual file system kept as objects of a bucket.
pub mod Keys
pub mod Client
pub mod Files
pub mod Search
