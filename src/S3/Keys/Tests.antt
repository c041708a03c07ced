-- ===== src/S3/Keys/Tests.antt =====
-- The key mapping on concrete paths.
use carqna_agent.Common.{◌≡◌, refl, ◌↔◌, ◌++◌}
use carqna_agent.PyText.{codes, starts_with, lstrip, strip}
use carqna_agent.PyText.Laws.{HeadNot}
use carqna_agent.S3.Keys.{Backend, is_slash, init, key_for, path_for, dir_key_prefix, root_prefix}
use carqna_agent.S3.Keys.Laws.{key_for-path_for_iff}

abbrev docs : Backend
docs = record { bucket = codes "carqna"; prefix = codes "docs" }

init-docs : init (codes "carqna") (codes "/docs/") ≡ docs
unfolding init strip
init-docs = refl

key_for-docs : key_for docs (codes "//nc/a.md") ≡ codes "docs/nc/a.md"
unfolding key_for lstrip
key_for-docs = refl

path_for-docs : path_for docs (codes "docs/nc/a.md") ≡ codes "/nc/a.md"
unfolding path_for starts_with
path_for-docs = refl

dir_key_prefix-docs : dir_key_prefix docs (codes "/nc/") ≡ codes "docs/nc/"
unfolding dir_key_prefix strip
dir_key_prefix-docs = refl

key_for-path_for_iff_example :
    (key_for docs (path_for docs (root_prefix docs ++ codes "a.md"))
      ≡ root_prefix docs ++ codes "a.md")
    ↔ HeadNot is_slash (codes "a.md")
key_for-path_for_iff_example = key_for-path_for_iff docs (codes "a.md")
