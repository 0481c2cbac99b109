-- ===== src/Auth/Window.antt =====
-- How many calls of one key the rate limit lets through (allow of app/service/auth_service.go).
use bangkusekolah_exam_node.Base.{
  ℕ, suc, ◌+◌, ◌≤◌, ◌≡◌, refl, sym, subst, Bool, true, false, ◌&&◌, not, String, ◌==◌, eq_iff,
  eq_refl, List, [], ◌∷◌, ◌++◌, if◌then◌else◌, ltb, leb, eqb, length, select, count_where, All,
  at_key, at_key-put, at_key-put_other, Bool-cases, inl, inr, arith,
}
use bangkusekolah_exam_node.Entity.{Time}
use bangkusekolah_exam_node.Auth.{
  max_rate_limit_keys, Limits, Hits, or_no_hits, recent_hits, is_known, with_room, allow,
}
use bangkusekolah_exam_node.Auth.Rate.{length-recent, length-one_more}

abbrev pub is_full : Hits → String → Bool
is_full hits key = leb max_rate_limit_keys (length hits) && not (is_known hits key)

module _ (limits : Limits) where
  -- No call finds the table full of other keys.
  unfoldable pub never_full : List (Time × String) → Hits → Bool
  never_full [] hits = true
  never_full ((now, key) ∷ calls) hits =
      not (is_full hits key) && never_full calls (allow limits now key hits).1

  module _ (key : String) (end : Time) where
    -- In the window that ends at `end`.
    abbrev pub in_window : Time → Bool
    in_window t = ltb end (t + limits.window)

    abbrev pub is_admitted : Time → String → Hits → Bool
    is_admitted now k hits = k == key && (allow limits now k hits).0 && in_window now

    -- How many calls of the key in the window are let through.
    unfoldable pub admitted_in : List (Time × String) → Hits → ℕ
    admitted_in [] hits = 0
    admitted_in ((now, k) ∷ calls) hits =
        let rest = admitted_in calls (allow limits now k hits).1 in
        if is_admitted now k hits then suc rest else rest

    abbrev hits_of : Hits → List Time
    hits_of hits = or_no_hits (at_key key hits)

    abbrev counted : List Time → ℕ
    counted = count_where in_window

    counted-recent :
        (now : Time) (h : List Time) → now ≤ end → counted (recent_hits limits now h) ≡ counted h
    unfolding count_where select
    counted-recent now [] past = refl
    counted-recent now (t ∷ ts) past = ground (arith, counted-recent now ts past)

    counted-one_more :
        (h : List Time) (t : Time)
        → counted (h ++ (t ∷ [])) ≡ (if in_window t then suc (counted h) else counted h)
    unfolding count_where
    counted-one_more [] t = ground arith
    counted-one_more (x ∷ h) t = ground (arith, counted-one_more h t)

    counted-length : (h : List Time) → counted h ≤ length h
    unfolding count_where
    counted-length [] = ground arith
    counted-length (t ∷ ts) = ground (arith, counted-length ts)

    -- What a call leaves for the key.
    record Counts (now : Time) (k : String) (hits : Hits) : Type 0 where
      sum :
          (if is_admitted now k hits then suc (counted (hits_of hits)) else counted (hits_of hits))
          ≡ counted (hits_of (allow limits now k hits).1)
      short : length (hits_of (allow limits now k hits).1) ≤ limits.limit

    allow-Counts_own :
        (now : Time) (hits : Hits)
        → 1 ≤ limits.limit
        → now ≤ end
        → length (hits_of hits) ≤ limits.limit
        → is_full hits key ≡ false
        → Counts now key hits
    unfolding allow
    allow-Counts_own now hits positive past few room =
        let h = recent_hits limits now (hits_of hits) in
        let limited : eqb limits.limit 0 ≡ false = ground arith in
        let shorter = length-recent limits now (hits_of hits) in
        let same = counted-recent now (hits_of hits) past in
        elim (Bool-cases (leb limits.limit (length h))) [
          | inl full ↦ record {
            sum = rw (limited, full, eq_refl key, at_key-put key h (with_room hits key)) (sym same);
            short = rw (limited, full, at_key-put key h (with_room hits key)) (omega arith);
          }
          | inr spare ↦ record {
            sum =
                rw
                  (
                    limited,
                    spare,
                    eq_refl key,
                    at_key-put key (h ++ (now ∷ [])) (with_room hits key),
                  )
                  (ground (arith, same, counted-one_more h now));
            short =
                rw (limited, spare, at_key-put key (h ++ (now ∷ [])) (with_room hits key))
                  (ground (arith, length-one_more h now));
          }
        ]

    allow-Counts_other :
        (now : Time) (k : String) (hits : Hits)
        → (k == key) ≡ false
        → length (hits_of hits) ≤ limits.limit
        → is_full hits k ≡ false
        → Counts now k hits
    unfolding allow
    allow-Counts_other now k hits other few room =
        let h = recent_hits limits now (or_no_hits (at_key k hits)) in
        elim (Bool-cases (eqb limits.limit 0)) [
          | inl unlimited ↦ record { sum = rw (unlimited, other) refl; short = rw unlimited few }
          | inr limited ↦ elim (Bool-cases (leb limits.limit (length h))) [
            | inl full ↦ record {
              sum = rw (limited, full, other, room, at_key-put_other k key h hits other) refl;
              short = rw (limited, full, room, at_key-put_other k key h hits other) few;
            }
            | inr spare ↦ record {
              sum =
                  rw
                    (
                      limited,
                      spare,
                      other,
                      room,
                      at_key-put_other k key (h ++ (now ∷ [])) hits other,
                    )
                    refl;
              short =
                  rw (limited, spare, room, at_key-put_other k key (h ++ (now ∷ [])) hits other)
                    few;
            }
          ]
        ]

    allow-Counts :
        (now : Time) (k : String) (hits : Hits)
        → 1 ≤ limits.limit
        → now ≤ end
        → length (hits_of hits) ≤ limits.limit
        → is_full hits k ≡ false
        → Counts now k hits
    allow-Counts now k hits positive past few room = elim (Bool-cases (k == key)) [
      | inl own ↦
          subst (λ j. is_full hits j ≡ false → Counts now j hits) (sym ((eq_iff k key).0 own))
            (allow-Counts_own now hits positive past few) room
      | inr other ↦ allow-Counts_other now k hits other few room
    ]

    counted-admitted_in :
        (calls : List (Time × String)) (hits : Hits)
        → 1 ≤ limits.limit
        → All (λ call. call.0 ≤ end) calls
        → length (hits_of hits) ≤ limits.limit
        → never_full calls hits ≡ true
        → counted (hits_of hits) + admitted_in calls hits ≤ limits.limit
    unfolding admitted_in never_full
    counted-admitted_in [] hits positive past few spare =
        ground (arith, counted-length (hits_of hits))
    counted-admitted_in ((now, k) ∷ calls) hits positive past few spare =
        let one = allow-Counts now k hits positive past.0 few (ground arith) in
        let later =
          counted-admitted_in calls (allow limits now k hits).1 positive past.1 one.short
            (ground arith) in
        ground (arith, one.sum, later)

-- Whatever calls are made up to a moment, by whatever keys and in whatever order of their times, from
-- the start: of the calls of one key in the window that ends at that moment, at most as many as the
-- limit are let through. The limit is not 0, and no call finds the table full of other keys.
pub allow-bounds_window :
    (limits : Limits) (key : String) (end : Time) (calls : List (Time × String))
    → 1 ≤ limits.limit
    → All (λ call. call.0 ≤ end) calls
    → never_full limits calls [] ≡ true
    → admitted_in limits key end calls [] ≤ limits.limit
unfolding count_where at_key
allow-bounds_window limits key end calls positive past spare =
    let sum = counted-admitted_in limits key end calls [] positive past (ground arith) spare in
    omega arith
