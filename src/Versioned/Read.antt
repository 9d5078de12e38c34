-- ===== src/Versioned/Read.antt =====
-- Reading a version of a string again, and another one.
use rmf_task.Base.{
  List, [], All, ℕ, ◌≡◌, refl, ◌∙◌, ap, inl, inr, Bool, true, false, ◌&&◌, ◌∷◌, Option, none, some,
  arith, ◌==◌, Bool-cases, beq_self, if_true, if_false,
}
use rmf_task.Versioned.{
  StringView, StringMemory, StringMemories, points_to, recall_string, read_string,
}

points_to-other :
    (o : Option ℕ) (a b : ℕ) → points_to o a ≡ true → (a == b) ≡ false → points_to o b ≡ false
points_to-other none a b h e = refl
points_to-other (some c) a b h e = ground arith

and_false : (a : Bool) {b : Bool} → b ≡ false → (a && b) ≡ false
and_false true h = h
and_false false h = refl

module _ {A : Type 0} where
  -- What a reader keeps of a view that it has read.
  read_string-cases :
      (v : StringView A) (memories : StringMemories)
      → (o : Option A) × (m : StringMemory) × (read_string v memories
          ≡ (o, (v.token_address, m) ∷ memories))
        × (points_to m.token v.token ≡ true)
        × (points_to m.last_value v.value ≡ true)
  unfolding read_string
  read_string-cases v memories =
      let known =
        points_to (recall_string v.token_address memories).token v.token
        && points_to (recall_string v.token_address memories).last_value v.value in
      elim (Bool-cases known) [
        | inl h ↦ (
          none,
          recall_string v.token_address memories,
          if_true known _ _ h,
          both_true _ _ h,
          both_true_right _ _ h,
        )
        | inr h ↦ (some v.text, _, if_false known _ _ h, beq_self v.token, beq_self v.value)
      ]
    where
      both_true : (a b : Bool) → (a && b) ≡ true → a ≡ true
      both_true a b h = ground arith

      both_true_right : (a b : Bool) → (a && b) ≡ true → b ≡ true
      both_true_right a b h = ground arith

  -- Views are read one after another.
  abbrev pub read_all : List (StringView A) → StringMemories → StringMemories
  read_all [] memories = memories
  read_all (w ∷ ws) memories = read_all ws (read_string w memories).1

  -- The views are of strings with other addresses of tokens.
  abbrev pub Others : ℕ → List (StringView A) → Type 0
  Others address = All (λ (w : StringView A). (w.token_address == address) ≡ false)

  recall_string-read_all :
      (address : ℕ) (ws : List (StringView A)) (memories : StringMemories)
      → Others address ws
      → recall_string address (read_all ws memories) ≡ recall_string address memories
  unfolding recall_string
  recall_string-read_all address [] memories h = refl
  recall_string-read_all address (w ∷ ws) memories h =
      let (o, m, p, t, l) = read_string-cases w memories in
      recall_string-read_all address ws (read_string w memories).1 h.1
      ∙ ap (λ (x : Option A × StringMemories). recall_string address x.1) p
      ∙ if_false (w.token_address == address) _ _ h.0

  read_known :
      (v : StringView A) (memories : StringMemories) (m : StringMemory)
      → recall_string v.token_address memories ≡ m
      → points_to m.token v.token ≡ true
      → points_to m.last_value v.value ≡ true
      → (read_string v memories).0 ≡ none
  unfolding read_string
  read_known v memories m k t l =
      ap (λ (x : Option A × StringMemories). x.0)
        (if_true
          (points_to (recall_string v.token_address memories).token v.token
            && points_to (recall_string v.token_address memories).last_value v.value)
          _ _
          (known (ap (λ (m : StringMemory). points_to m.token v.token) k ∙ t)
            (ap (λ (m : StringMemory). points_to m.last_value v.value) k ∙ l)))
    where
      known : {a b : Bool} → a ≡ true → b ≡ true → (a && b) ≡ true
      known p q = rw (p, q)

  read_unknown :
      (v : StringView A) (memories : StringMemories) (m : StringMemory)
      → recall_string v.token_address memories ≡ m
      → points_to m.last_value v.value ≡ false
      → (read_string v memories).0 ≡ some v.text
  unfolding read_string
  read_unknown v memories m k l =
      ap (λ (x : Option A × StringMemories). x.0)
        (if_false
          (points_to (recall_string v.token_address memories).token v.token
            && points_to (recall_string v.token_address memories).last_value v.value)
          _ _
          (and_false (points_to (recall_string v.token_address memories).token v.token)
            (ap (λ (m : StringMemory). points_to m.last_value v.value) k ∙ l)))

  -- After a view of a string has been read, and then any views of other strings, the same version is
  -- not given out again, and any other version of the string is: a newer one, but also an older one
  -- that was given out before.
  pub read_string_lem :
      (v u : StringView A) (others : List (StringView A)) (memories : StringMemories)
      → u.token_address ≡ v.token_address
      → (v.value == u.value) ≡ false
      → Others v.token_address others
      → ((read_string v (read_all others (read_string v memories).1)).0 ≡ none)
        × ((read_string u (read_all others (read_string v memories).1)).0 ≡ some u.text)
  unfolding recall_string
  read_string_lem v u others memories same differ h =
      let (o, m, p, t, l) = read_string-cases v memories in
      let memories' = read_all others (read_string v memories).1 in
      let kept : recall_string v.token_address memories' ≡ m =
        recall_string-read_all v.token_address others (read_string v memories).1 h
        ∙ ap (λ (x : Option A × StringMemories). recall_string v.token_address x.1) p
        ∙ if_true (v.token_address == v.token_address) _ _ (beq_self v.token_address) in
      (
        read_known v memories' m kept t l,
        read_unknown u memories' m (ap (λ a. recall_string a memories') same ∙ kept)
            (points_to-other m.last_value v.value u.value l differ),
      )
