-- ===== src/S3/Search/Contents.antt =====
-- The files that `grep` searches.
use mathlib.Core.List.{Mem}
use carqna_agent.Common.{◌≡◌, ◌⊎◌, true, false, Option, some, none, List, [], ◌∷◌}
use carqna_agent.PyText.{Text}
use carqna_agent.S3.Keys.{Backend, path_for}
use carqna_agent.S3.Client.{Object, Client, FileData, Utils}
use carqna_agent.PyDict.{Dict}
use carqna_agent.S3.Search.{is_marker, readable}
use carqna_agent.PyDict.Laws.{Holds, Has}

module _ {S M : Type 0} (client : Client S) (u : Utils M) (b : Backend) (s : S) where
  abbrev pub text_of : Object → Option Text
  text_of obj = readable client u b (client.get_object b.bucket obj.key s)

  -- The file is made of an object that is listed, is no directory marker and was read as text.
  abbrev pub IsContentOf : List Object → Text → FileData → Type 0
  IsContentOf objs p f =
      (obj : Object) × (content : Text) × Mem obj objs
      × (is_marker obj ≡ false)
      × (text_of obj ≡ some content)
      × (path_for b obj.key ≡ p)
      × (f ≡ u.create_file_data content)

  module _ (all : List Object) where
    abbrev Sound : Dict FileData → Type 0
    Sound files = Holds (IsContentOf all) files

  -- Every one of the objects that is no directory marker and can be read as text has its file.
  abbrev pub IsComplete : List Object → Dict FileData → Type 0
  IsComplete [] files = Unit
  IsComplete (obj ∷ objs) files =
      ((is_marker obj ≡ true) ⊎ ((text_of obj ≡ none) ⊎ Has (path_for b obj.key) files))
      × IsComplete objs files
