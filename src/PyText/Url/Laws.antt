-- ===== src/PyText/Url/Laws.antt =====
-- What `urlsplit` makes of s3://<bucket>/<prefix>, and of a path without a scheme.
use carqna_agent.Common.{
  ℕ, ◌≡◌, refl, ap, Bool, true, false, not, ◌&&◌, [], ◌∷◌, ◌++◌, ◌==◌, leb, arith, All, All-append,
  every_one, filter, any,
}
use carqna_agent.PyText.{Text, codes, lstrip, starts_with, lower}
use carqna_agent.Errors.{returned}
use carqna_agent.PyText.Url.{
  before, rest_from, is_unsafe, is_delimiter, path_part, check_netloc, urlsplit,
}

-- The text ends where the first such character stands, or is whole.
before_whole : (p : ℕ → Bool) (s : Text) → All (λ c. p c ≡ false) s → before p s ≡ s
unfolding before
before_whole p [] h = refl
before_whole p (c ∷ s) (h, hs) = rw (h, before_whole p s hs) refl

before-append :
    (p : ℕ → Bool) (s : Text) (c : ℕ) (t : Text)
    → All (λ d. p d ≡ false) s
    → p c ≡ true
    → before p (s ++ c ∷ t) ≡ s
unfolding before
before-append p [] c t h e = rw e refl
before-append p (d ∷ s) c t (h, hs) e = rw (h, before-append p s c t hs e) refl

rest_from-append :
    (p : ℕ → Bool) (s : Text) (c : ℕ) (t : Text)
    → All (λ d. p d ≡ false) s
    → p c ≡ true
    → rest_from p (s ++ c ∷ t) ≡ c ∷ t
unfolding rest_from
rest_from-append p [] c t h e = rw e refl
rest_from-append p (d ∷ s) c t (h, hs) e = rw h (rest_from-append p s c t hs e)

filter_whole : (p : ℕ → Bool) (s : Text) → All (λ c. p c ≡ true) s → filter p s ≡ s
filter_whole p [] h = refl
filter_whole p (c ∷ s) (h, hs) = rw (h, filter_whole p s hs) refl

any_none : (p : ℕ → Bool) (s : Text) → All (λ c. p c ≡ false) s → any p s ≡ false
any_none p [] h = refl
any_none p (c ∷ s) (h, hs) = rw (h, any_none p s hs) refl

-- A character of a bucket's name: ASCII, and none that ends or breaks a network location.
abbrev pub is_host_char : ℕ → Bool
is_host_char c =
    not (is_delimiter c)
    && (not (is_unsafe c) && (not (c == 91) && (not (c == 93) && not (leb 128 c))))

-- A character of a path: none that ends it and none that `urlsplit` leaves out.
abbrev pub is_path_char : ℕ → Bool
is_path_char c = not (is_unsafe c) && (not (c == 35) && not (c == 63))

abbrev pub IsHost : Text → Type 0
IsHost s = All (λ c. is_host_char c ≡ true) s

abbrev pub IsPath : Text → Type 0
IsPath s = All (λ c. is_path_char c ≡ true) s

-- What each of the tests of `urlsplit` says of such a text.
module _ (q : ℕ → Bool) (s : Text) where
  host-All : ((c : ℕ) → is_host_char c ≡ true → q c ≡ false) → IsHost s → All (λ c. q c ≡ false) s
  host-All f h = every_one _ _ s h f

  path-All : ((c : ℕ) → is_path_char c ≡ true → q c ≡ false) → IsPath s → All (λ c. q c ≡ false) s
  path-All f h = every_one _ _ s h f

host_delimiter : (c : ℕ) → is_host_char c ≡ true → is_delimiter c ≡ false
host_delimiter c h = ground arith

path_part_whole : (s : Text) → IsPath s → path_part s ≡ s
path_part_whole s h =
    rw (before_whole (λ c. c == 35) s (path-All (λ c. c == 35) s (λ c k. ground arith) h))
      (before_whole (λ c. c == 63) s (path-All (λ c. c == 63) s (λ c k. ground arith) h))

check_host : (refused : Text → Bool) (s : Text) → IsHost s → check_netloc refused s ≡ returned tt
check_host refused s h =
    rw
      (
        any_none (λ c. c == 91) s (host-All (λ c. c == 91) s (λ c k. ground arith) h),
        any_none (λ c. c == 93) s (host-All (λ c. c == 93) s (λ c k. ground arith) h),
        any_none (λ c. leb 128 c) s (host-All (λ c. leb 128 c) s (λ c k. ground arith) h),
      )
      refl

-- The text behind "s3://".
abbrev location : Text → Text → Text
location bucket prefix = bucket ++ 47 ∷ prefix

location_kept :
    (bucket prefix : Text)
    → IsHost bucket
    → IsPath prefix
    → filter (λ c. not (is_unsafe c)) (location bucket prefix) ≡ location bucket prefix
location_kept bucket prefix h k =
    filter_whole (λ c. not (is_unsafe c)) _
      (All-append (λ c. not (is_unsafe c) ≡ true) bucket (47 ∷ prefix)
        (every_one _ _ bucket h (λ c e. ground arith))
        (refl, every_one _ _ prefix k (λ c e. ground arith)))

pub urlsplit-s3 :
    (refused : Text → Bool) (bucket prefix : Text)
    → IsHost bucket
    → IsPath prefix
    → urlsplit refused (codes "s3://" ++ bucket ++ 47 ∷ prefix)
      ≡ returned (record { scheme = codes "s3"; netloc = bucket; path = 47 ∷ prefix })
unfolding urlsplit lstrip before rest_from starts_with lower
urlsplit-s3 refused bucket prefix h k =
    rw
      (
        location_kept bucket prefix h k,
        before-append is_delimiter bucket 47 prefix (host-All is_delimiter bucket host_delimiter h)
            refl,
        rest_from-append is_delimiter bucket 47 prefix
            (host-All is_delimiter bucket host_delimiter h) refl,
        check_host refused bucket h,
      )
      (ap (λ p. returned (record { scheme = codes "s3"; netloc = bucket; path = p }))
        (path_part_whole (47 ∷ prefix) (refl, k)))
