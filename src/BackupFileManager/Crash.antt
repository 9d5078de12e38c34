-- ===== src/BackupFileManager/Crash.antt =====
-- A write that is interrupted, and what is read afterwards.
use rmf_task.Base.{
  ℕ, zero, suc, ◌≡◌, refl, sym, ◌∙◌, ap, true, List, [], ◌∷◌, ◌++◌, map, append_assoc, append-nil,
  Option, none, some, if◌then◌else◌, if_true, null, maybe,
}
use rmf_task.BackupFileManager.{
  Directory, put_character, rename, write_step, write_steps, run_steps, Read, no_backup, restored,
  read_directory,
}

abbrev pub take {ℓ} : {A : Type ℓ} → ℕ → List A → List A
take zero xs = []
take (suc n) [] = []
take (suc n) (x ∷ xs) = x ∷ take n xs

abbrev pub drop {ℓ} : {A : Type ℓ} → ℕ → List A → List A
drop zero xs = xs
drop (suc n) [] = []
drop (suc n) (x ∷ xs) = drop n xs

-- What the file "backup" says.
abbrev pub kept : Option (List ℕ) → Read
kept backup = maybe backup no_backup restored

read_directory-kept : (d : Directory) → null d.foreign ≡ true → (read_directory d).0 ≡ kept d.backup
unfolding read_directory
read_directory-kept d h =
    ap (λ (r : Read × Directory). r.0) (if_true (null d.foreign) _ _ h) ∙ both d.backup
  where
    both :
        (backup : Option (List ℕ))
        → (maybe {B = Read × Directory} backup
            (no_backup, record d { pre_backup = none })
            (λ t. (restored t, record d { pre_backup = none }))).0
          ≡ kept backup
    both none = refl
    both (some t) = refl

-- The steps behind the opening of ".backup", which has some characters already.
run_puts :
    (state acc : List ℕ) (k : ℕ) (backup : Option (List ℕ)) (foreign : List ℕ)
    → null foreign ≡ true
    → (read_directory (
        run_steps
          (take k (map put_character state ++ rename ∷ []))
          (record { backup = backup; pre_backup = some acc; foreign = foreign }))).0
      ≡ (if null (drop k (map put_character state ++ rename ∷ []))
          then restored (acc ++ state)
          else kept backup)
unfolding run_steps write_step
run_puts [] acc zero backup foreign h = read_directory-kept _ h
run_puts [] acc (suc zero) backup foreign h =
    read_directory-kept _ h ∙ ap restored (sym (append-nil acc))
run_puts [] acc (suc (suc k)) backup foreign h =
    read_directory-kept _ h ∙ ap restored (sym (append-nil acc))
run_puts (c ∷ state) acc zero backup foreign h = read_directory-kept _ h
run_puts (c ∷ state) acc (suc k) backup foreign h =
    run_puts state (acc ++ c ∷ []) k backup foreign h
    ∙ ap
        (λ (l : List ℕ).
          if null (drop k (map put_character state ++ rename ∷ []))
          then restored l
          else kept backup)
        (append_assoc acc (c ∷ []) state)

-- A write may stop after any number of its steps. If no foreign file is in the directory, the backup
-- that is read then is the new one if no step is left, and otherwise the one from before the write,
-- or none if there was none.
pub write_steps-read :
    (state : List ℕ) (k : ℕ) (d : Directory)
    → null d.foreign ≡ true
    → (read_directory (run_steps (take k (write_steps state)) d)).0
      ≡ (if null (drop k (write_steps state)) then restored state else kept d.backup)
unfolding write_steps run_steps write_step
write_steps-read state zero d h = read_directory-kept d h
write_steps-read state (suc k) d h = run_puts state [] k d.backup d.foreign h
