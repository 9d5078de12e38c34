-- ===== src/Versioned/Examples.antt =====
-- The theorems about versioned strings at concrete inputs.
use rmf_task.Base.{◌∷◌, ℕ, ◌≡◌, refl, [], none, some}
use rmf_task.Versioned.{
  VersionedString, StringView, StringMemories, recall_string, update_string, view_string,
  read_string,
}
use rmf_task.Versioned.Read.{read_string_lem, read_all}

abbrev name : VersionedString ℕ
name = record { value = 1; text = 40; token_address = 8; token = 2 }

abbrev name_view : StringView ℕ
name_view = record { value = 1; text = 40; token_address = 8; token = 2 }

abbrev detail_view : StringView ℕ
detail_view = record { value = 3; text = 50; token_address = 9; token = 4 }

abbrev no_strings : StringMemories
no_strings = []

first_read : (read_string name_view no_strings).0 ≡ some 40
unfolding read_string recall_string
first_read = refl

abbrev renamed_view : StringView ℕ
renamed_view = record { value = 5; text = 60; token_address = 8; token = 2 }

renamed : view_string (update_string 5 60 name) ≡ renamed_view
unfolding view_string update_string
renamed = refl

-- A version that was given out is given out again after a newer one.
old_again :
    (read_string name_view (read_string renamed_view (read_string name_view no_strings).1).1).0
    ≡ some 40
unfolding read_string recall_string
old_again = refl

read_string_lem_example :
    ((read_string name_view (read_all (detail_view ∷ []) (read_string name_view no_strings).1)).0
      ≡ none)
    × ((read_string renamed_view
          (read_all (detail_view ∷ []) (read_string name_view no_strings).1)).0
        ≡ some 60)
read_string_lem_example =
    read_string_lem name_view renamed_view (detail_view ∷ []) no_strings refl refl (refl, tt)
