-- ===== src/Auth/Rate.antt =====
-- The table of hits stays bounded (allow of app/service/auth_service.go).
use bangkusekolah_exam_node.Base.{
  suc, ◌≤◌, ◌≡◌, ◌⊎◌, refl, ap, true, false, ◌&&◌, ◌||◌, not, String, ◌==◌, eq_refl, Option, none,
  some, List, [], ◌∷◌, ◌++◌, ltb, leb, eqb, length, select, All, Dict, at_key, put, delete,
  Bool-cases, inl, inr, arith,
}
use bangkusekolah_exam_node.Entity.{Time}
use bangkusekolah_exam_node.Auth.{
  max_rate_limit_keys, Limits, Hits, or_no_hits, recent_hits, oldest_key, is_known, with_room,
  count_hit, allow,
}

module _ {V : Type 0} where
  length-put_known :
      (k : String) (v : V) (m : Dict V) {u : V}
      → at_key k m ≡ some u
      → length (put k v m) ≡ length m
  unfolding at_key put
  length-put_known k v [] e = cc
  length-put_known k v ((j, x) ∷ rest) {u} e = ground (arith, length-put_known k v rest {u = u})

  length-put : (k : String) (v : V) (m : Dict V) → length (put k v m) ≤ suc (length m)
  unfolding put
  length-put k v [] = ground arith
  length-put k v ((j, x) ∷ rest) = ground (arith, length-put k v rest)

  length-delete : (k : String) (m : Dict V) → length (delete k m) ≤ length m
  unfolding delete
  length-delete k [] = ground arith
  length-delete k ((j, x) ∷ rest) = ground (arith, length-delete k rest)

  length-delete_known :
      (k : String) (m : Dict V) {u : V} → at_key k m ≡ some u → suc (length (delete k m)) ≤ length m
  unfolding at_key delete
  length-delete_known k [] e = cc
  length-delete_known k ((j, x) ∷ rest) {u} e =
      ground (arith, length-delete k rest, length-delete_known k rest {u = u})

  All-put :
      (P : String × V → Type 0) (k : String) (v : V) (m : Dict V)
      → All P m
      → P (k, v)
      → All P (put k v m)
  unfolding put
  All-put P k v [] h p = (p, tt)
  All-put P k v ((j, x) ∷ rest) h p = elim (Bool-cases (j == k)) [
    | inl same ↦ rw same (p, h.1)
    | inr other ↦ rw other (h.0, All-put P k v rest h.1 p)
  ]

  All-delete : (P : String × V → Type 0) (k : String) (m : Dict V) → All P m → All P (delete k m)
  unfolding delete
  All-delete P k [] h = tt
  All-delete P k ((j, x) ∷ rest) h = elim (Bool-cases (j == k)) [
    | inl same ↦ rw same (All-delete P k rest h.1)
    | inr other ↦ rw other (h.0, All-delete P k rest h.1)
  ]

known-some : (m : Hits) (k : String) → is_known m k ≡ true → (u : List Time) × (at_key k m ≡ some u)
known-some m k known = go (at_key k m) refl known
  where
    go :
        (o : Option (List Time))
        → at_key k m ≡ o
        → elim o [ none ↦ false | some _ ↦ true ] ≡ true
        → (u : List Time) × (at_key k m ≡ some u)
    go none e t = absurd (ground arith)
    go (some u) e t = (u, e)

known-later :
    (j k : String) (v : List Time) (m : Hits) → is_known m k ≡ true → is_known ((j, v) ∷ m) k ≡ true
unfolding at_key
known-later j k v m known = ground (arith, known)

known-here : (j : String) (v : List Time) (m : Hits) → is_known ((j, v) ∷ m) j ≡ true
unfolding at_key
known-here j v m = ground (arith, eq_refl j)

-- The key that is dropped is the best so far or in the rest.
oldest_key-known :
    (best : String) (oldest : Time) (m : Hits)
    → (oldest_key best oldest m ≡ best) ⊎ (is_known m (oldest_key best oldest m) ≡ true)
unfolding oldest_key
oldest_key-known best oldest [] = inl refl
oldest_key-known best oldest ((k, []) ∷ rest) = inr (known-here k [] rest)
oldest_key-known best oldest ((k, t ∷ ts) ∷ rest) = elim (Bool-cases (best == "" || ltb t oldest)) [
  | inl older ↦ rw older (inr (from_head (oldest_key-known k t rest)))
  | inr newer ↦ rw newer (past_head (oldest_key-known best oldest rest))
]
  where
    from_head :
        (oldest_key k t rest ≡ k) ⊎ (is_known rest (oldest_key k t rest) ≡ true)
        → is_known ((k, t ∷ ts) ∷ rest) (oldest_key k t rest) ≡ true
    from_head (inl same) = rw same (known-here k (t ∷ ts) rest)
    from_head (inr known) = known-later k (oldest_key k t rest) (t ∷ ts) rest known

    past_head :
        (oldest_key best oldest rest ≡ best) ⊎ (is_known rest (oldest_key best oldest rest) ≡ true)
        → (oldest_key best oldest rest ≡ best)
          ⊎ (is_known ((k, t ∷ ts) ∷ rest) (oldest_key best oldest rest) ≡ true)
    past_head (inl same) = inl same
    past_head (inr known) = inr (known-later k (oldest_key best oldest rest) (t ∷ ts) rest known)

first_key-known :
    (kv : String × List Time) (m : Hits) → is_known (kv ∷ m) (oldest_key "" 0 (kv ∷ m)) ≡ true
unfolding oldest_key
first_key-known (k, []) m = known-here k [] m
first_key-known (k, t ∷ ts) m = go (oldest_key-known k t m)
  where
    go :
        (oldest_key k t m ≡ k) ⊎ (is_known m (oldest_key k t m) ≡ true)
        → is_known ((k, t ∷ ts) ∷ m) (oldest_key k t m) ≡ true
    go (inl same) = rw same (known-here k (t ∷ ts) m)
    go (inr known) = known-later k (oldest_key k t m) (t ∷ ts) m known

-- At most `max_rate_limit_keys` keys, and at most `limit` hits for each.
pub record RateBounded (limits : Limits) (hits : Hits) : Type 0 where
  pub few_keys : length hits ≤ max_rate_limit_keys
  pub few_hits : All (λ kv. length kv.1 ≤ limits.limit) hits

dropped-short :
    (hits : Hits)
    → max_rate_limit_keys ≤ length hits
    → suc (length (delete (oldest_key "" 0 hits) hits)) ≤ length hits
dropped-short [] full = absurd (ground arith)
dropped-short (kv ∷ m) full =
    let known = known-some (kv ∷ m) (oldest_key "" 0 (kv ∷ m)) (first_key-known kv m) in
    length-delete_known (oldest_key "" 0 (kv ∷ m)) (kv ∷ m) {u = known.0} known.1

-- Whatever is put for the key after room is made, the keys stay few.
put-with_room-few :
    (hits : Hits) (key : String) (h : List Time)
    → length hits ≤ max_rate_limit_keys
    → length (put key h (with_room hits key)) ≤ max_rate_limit_keys
put-with_room-few hits key h few = elim (Bool-cases (is_known hits key)) [
  | inl known ↦
      let found = known-some hits key known in
      let stays : with_room hits key ≡ hits = ground (arith, known) in
      let same = length-put_known key h hits {u = found.0} found.1 in rw stays (omega arith)
  | inr absent ↦
      let grows = length-put key h (with_room hits key) in
      let room : suc (length (with_room hits key)) ≤ max_rate_limit_keys =
        elim (Bool-cases (leb max_rate_limit_keys (length hits))) [
          | inl full ↦
              let shorter = dropped-short hits (ground arith) in rw (absent, full) (omega arith)
          | inr spare ↦ rw spare (ground arith)
        ] in
      omega arith
]

pub length-recent :
    (limits : Limits) (now : Time) (h : List Time) → length (recent_hits limits now h) ≤ length h
unfolding select
length-recent limits now [] = ground arith
length-recent limits now (t ∷ ts) = ground (arith, length-recent limits now ts)

pub length-one_more : (h : List Time) (t : Time) → length (h ++ (t ∷ [])) ≡ suc (length h)
length-one_more [] t = refl
length-one_more (x ∷ h) t = ap suc (length-one_more h t)

module _ (limits : Limits) where
  abbrev FewHits : String × List Time → Type 0
  FewHits kv = length kv.1 ≤ limits.limit

  looked_up-few :
      (key : String) (m : Hits) → All FewHits m → length (or_no_hits (at_key key m)) ≤ limits.limit
  unfolding at_key
  looked_up-few key [] h = ground arith
  looked_up-few key ((j, v) ∷ rest) h = elim (Bool-cases (j == key)) [
    | inl here ↦ rw here (h.0)
    | inr later ↦ rw later (looked_up-few key rest h.1)
  ]

  with_room-few : (key : String) (m : Hits) → All FewHits m → All FewHits (with_room m key)
  with_room-few key m h =
      elim (Bool-cases (leb max_rate_limit_keys (length m) && not (is_known m key))) [
        | inl full ↦ rw full (All-delete FewHits (oldest_key "" 0 m) m h)
        | inr spare ↦ rw spare h
      ]

  count_hit-few :
      (now : Time) (key : String) (h : List Time) (m : Hits)
      → length h ≤ limits.limit
      → All FewHits m
      → All FewHits (count_hit limits now key h m).1
  count_hit-few now key h m short few = elim (Bool-cases (leb limits.limit (length h))) [
    | inl full ↦ rw full (All-put FewHits key h m few short)
    | inr spare ↦
        rw spare
          (All-put FewHits key (h ++ (now ∷ [])) m few (ground (arith, length-one_more h now)))
  ]

  count_hit-few_keys :
      (now : Time) (key : String) (h : List Time) (hits : Hits)
      → length hits ≤ max_rate_limit_keys
      → length (count_hit limits now key h (with_room hits key)).1 ≤ max_rate_limit_keys
  count_hit-few_keys now key h hits few = elim (Bool-cases (leb limits.limit (length h))) [
    | inl full ↦ rw full (put-with_room-few hits key h few)
    | inr spare ↦ rw spare (put-with_room-few hits key (h ++ (now ∷ [])) few)
  ]

  allow-RateBounded :
      (now : Time) (key : String) (hits : Hits)
      → RateBounded limits hits
      → RateBounded limits (allow limits now key hits).1
  unfolding allow
  allow-RateBounded now key hits b = elim (Bool-cases (eqb limits.limit 0)) [
    | inl unlimited ↦ rw unlimited b
    | inr limited ↦
        let h = recent_hits limits now (or_no_hits (at_key key hits)) in
        let shorter = length-recent limits now (or_no_hits (at_key key hits)) in
        let few = looked_up-few key hits b.few_hits in
        rw limited (record {
          few_keys = count_hit-few_keys now key h hits b.few_keys;
          few_hits =
              count_hit-few now key h (with_room hits key) (omega arith)
                (with_room-few key hits b.few_hits);
        })
  ]

  -- The table after calls of allow, at any times.
  unfoldable pub after_calls : List (Time × String) → Hits → Hits
  after_calls [] hits = hits
  after_calls ((now, key) ∷ calls) hits = after_calls calls (allow limits now key hits).1

  after_calls-Bounded :
      (calls : List (Time × String)) (hits : Hits)
      → RateBounded limits hits
      → RateBounded limits (after_calls calls hits)
  unfolding after_calls
  after_calls-Bounded [] hits b = b
  after_calls-Bounded ((now, key) ∷ calls) hits b =
      after_calls-Bounded calls (allow limits now key hits).1 (allow-RateBounded now key hits b)

  -- However often and with whatever keys the rate limit is asked, from the start: its table has at
  -- most 4096 keys, and no key has more hits than the limit.
  pub after_calls-RateBounded :
      (calls : List (Time × String)) → RateBounded limits (after_calls calls [])
  after_calls-RateBounded calls =
      after_calls-Bounded calls [] (record { few_keys = ground arith; few_hits = tt })
