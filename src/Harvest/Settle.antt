-- ===== src/Harvest/Settle.antt =====
-- The acknowledgement of Central, id by id: what holds of every accepted id, of every generation
-- that is looked up for it, and so of every row that the marking matches.
use bangkusekolah_exam_node.Base.{
  ℕ, ◌≡◌, refl, subst, inl, inr, Bool, true, false, ◌&&◌, not, String, ◌==◌, eq_iff, eq_refl,
  Option, none, some, List, [], ◌∷◌, ◌++◌, if◌then◌else◌, eqb, find?, All, Dict, put, Bool-cases,
  arith,
}
use bangkusekolah_exam_node.Entity.{Attempt}
use bangkusekolah_exam_node.Repository.Harvest.{is_in, is_of_generation}
use bangkusekolah_exam_node.Harvest.{
  ExamNodeAttemptPayload, Settling, is_failure, without, settle_id, settle_ids, generation_of,
  generations_of,
}

pub All-own :
    (P : String → Type 0) (ids : List String)
    → ((x : String) → is_in x ids ≡ true → P x)
    → All P ids
unfolding is_in
All-own P [] k = tt
All-own P (x ∷ xs) k = (k x (ground (arith, eq_refl x)), All-own P xs λ y here. k y (ground arith))

All-append_one :
    (P : String → Type 0) (xs : List String) (x : String) → All P xs → P x → All P (xs ++ (x ∷ []))
All-append_one P [] x h p = (p, tt)
All-append_one P (y ∷ xs) x h p = (h.0, All-append_one P xs x h.1 p)

pub settle_ids-All :
    (P : String → Type 0) (failures : Dict String) (ids : List String) (s : Settling)
    → All (λ x. is_failure failures x ≡ false → P x) ids
    → All P s.accepted
    → All P (settle_ids failures ids s).accepted
unfolding settle_ids
settle_ids-All P failures [] s new old = old
settle_ids-All P failures (id ∷ ids) s new old =
    settle_ids-All P failures ids (settle_id failures id s) new.1 (go _ refl)
  where
    go :
        (b : Bool)
        → (is_in id s.sent && not (is_in id s.accepted) && not (is_failure failures id)) ≡ b
        → All P
            (if b
              then record { sent = without id s.sent; accepted = s.accepted ++ (id ∷ []) }
              else s).accepted
    go true e = All-append_one P s.accepted id old (new.0 (ground arith))
    go false e = old

All-put :
    (P : String × ℕ → Type 0) (k : String) (v : ℕ) (m : Dict ℕ)
    → All P m
    → P (k, v)
    → All P (put k v m)
unfolding put
All-put P k v [] h p = (p, tt)
All-put P k v ((j, u) ∷ rest) h p = elim (Bool-cases (j == k)) [
  | inl same ↦ rw same (p, h.1)
  | inr other ↦ rw other (h.0, All-put P k v rest h.1 p)
]

pub generations_of-All :
    (P : String × ℕ → Type 0) (payloads : List ExamNodeAttemptPayload) (ids : List String)
    (generations : Dict ℕ)
    → All
        (λ id.
          (p : ExamNodeAttemptPayload)
          → find? (λ q. q.id == id) payloads ≡ some p
          → P (id, p.reset_generation))
        ids
    → All P generations
    → All P (generations_of payloads ids generations)
unfolding generations_of
generations_of-All P payloads [] generations new old = old
generations_of-All P payloads (id ∷ ids) generations new old =
    generations_of-All P payloads ids (generation_of payloads id generations) new.1
      (go (find? (λ q. q.id == id) payloads) refl)
  where
    go :
        (o : Option ExamNodeAttemptPayload)
        → find? (λ q. q.id == id) payloads ≡ o
        → All P (elim o [ none ↦ generations | some p ↦ put id p.reset_generation generations ])
    go none e = old
    go (some p) e = All-put P id p.reset_generation generations old (new.0 p e)

pub is_of_generation-All :
    (P : String → ℕ → Type 0) (generations : Dict ℕ) (a : Attempt)
    → All (λ g. P g.0 g.1) generations
    → is_of_generation generations a ≡ true
    → P a.id a.reset_generation
unfolding is_of_generation
is_of_generation-All P [] a h e = cc
is_of_generation-All P ((id, g) ∷ rest) a h e =
    elim (Bool-cases (a.id == id && eqb a.reset_generation g)) [
      | inl here ↦
          let same_id : id ≡ a.id = ground (arith, eq_iff a.id id) in
          let same_g : g ≡ a.reset_generation = ground arith in
          subst (λ i. P i a.reset_generation) same_id (subst (P id) same_g h.0)
      | inr later ↦ is_of_generation-All P rest a h.1 (ground arith)
    ]
