-- ===== src/S3/Keys/Laws.antt =====
-- Paths to keys and back, and the keys that a backend can reach.
use carqna_agent.Common.{
  ◌≡◌, refl, ap, sym, ◌∙◌, ◌↔◌, true, [], ◌∷◌, ◌++◌, drop-append, append_assoc, arith,
}
use carqna_agent.PyText.{Text, starts_with, lstrip}
use carqna_agent.PyText.Laws.{starts_with-append, HeadNot, lstrip-eq_iff}
use carqna_agent.S3.Keys.{Backend, is_slash, key_for, path_for, root_prefix}

pub key_for-root_prefix :
    (b : Backend) (p : Text) → key_for b p ≡ root_prefix b ++ lstrip is_slash p
unfolding key_for root_prefix
key_for-root_prefix b p = ground (arith, append_assoc b.prefix (47 ∷ []) (lstrip is_slash p))

pub path_for-root_prefix :
    (b : Backend) (rest : Text) → path_for b (root_prefix b ++ rest) ≡ 47 ∷ rest
unfolding path_for root_prefix
path_for-root_prefix b rest =
    ground
      (arith, starts_with-append (b.prefix ++ 47 ∷ []) rest, drop-append (b.prefix ++ 47 ∷ []) rest)

-- The path of the key of a path is the path with its leading slashes made one.
path_for-key_for : (b : Backend) (p : Text) → path_for b (key_for b p) ≡ 47 ∷ lstrip is_slash p
path_for-key_for b p = rw (key_for-root_prefix b p) (path_for-root_prefix b (lstrip is_slash p))

append_cancel : (s : Text) {t u : Text} → s ++ t ≡ s ++ u → t ≡ u
append_cancel [] e = e
append_cancel (c ∷ s) e = append_cancel s (cc)

pub lstrip-slash : (rest : Text) → lstrip is_slash (47 ∷ rest) ≡ lstrip is_slash rest
unfolding lstrip
lstrip-slash rest = refl

-- A key below the root comes back from its path exactly when no slash follows the root.
pub key_for-path_for_iff :
    (b : Backend) (rest : Text)
    → (key_for b (path_for b (root_prefix b ++ rest)) ≡ root_prefix b ++ rest)
      ↔ HeadNot is_slash rest
key_for-path_for_iff b rest =
    rw (path_for-root_prefix b rest, key_for-root_prefix b (47 ∷ rest))
      (
        λ e.
            (lstrip-eq_iff is_slash rest).0
              (sym (lstrip-slash rest) ∙ append_cancel (root_prefix b) e),
        λ h. ap (λ s. root_prefix b ++ s) (lstrip-slash rest ∙ (lstrip-eq_iff is_slash rest).1 h),
      )

-- Every key that the backend forms lies below its root.
pub starts_with-key_for :
    (b : Backend) (p : Text) → starts_with (key_for b p) (root_prefix b) ≡ true
starts_with-key_for b p = rw (key_for-root_prefix b p) (starts_with-append (root_prefix b) _)

-- Two paths have one key exactly when they differ in leading slashes alone.
pub key_for-eq_iff :
    (b : Backend) (p q : Text)
    → (key_for b p ≡ key_for b q) ↔ (lstrip is_slash p ≡ lstrip is_slash q)
key_for-eq_iff b p q =
    rw (key_for-root_prefix b p, key_for-root_prefix b q)
      (append_cancel (root_prefix b), λ e. ap (λ s. root_prefix b ++ s) e)
