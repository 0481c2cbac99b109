-- ===== src/Auth.antt =====
-- Logging in with an access code (app/service/auth_service.go). Issuing and reading a token are
-- parameters. The table of hits is beside the world; a Go map that is ranged over has the order of a
-- list, and no key of the table is empty.
pub mod Rate
pub mod Login
pub mod Window
use bangkusekolah_exam_node.Base.{
  ℕ, zero, suc, ◌+◌, Bool, true, false, ◌&&◌, ◌||◌, not, String, ◌==◌, Option, none, some, List, [],
  ◌∷◌, ◌++◌, if◌then◌else◌, ltb, leb, eqb, length, select, byte_len, trim_space, to_upper, find?,
  Dict, at_key, put, delete,
}
use bangkusekolah_exam_node.Entity.{
  Time, Exam, Participant, Err, invalid_access_code, too_many_attempts,
}
use bangkusekolah_exam_node.Store.{Store, ParticipantRow, to_participant_entity}
use bangkusekolah_exam_node.Exec.{
  M, World, Result, ok, err, or_err, pure, raise, ◌>>=◌, ◌>>◌, guard, try, query, time_now,
}
use bangkusekolah_exam_node.Repository.{find_exam_by_id}

abbrev pub max_rate_limit_keys : ℕ
max_rate_limit_keys = 4096

-- How many hits a key may have in a window.
pub record Limits : Type 0 where
  pub limit : ℕ
  pub window : Time

abbrev pub Hits : Type 0
Hits = Dict (List Time)

abbrev pub or_no_hits : Option (List Time) → List Time
or_no_hits none = []
or_no_hits (some h) = h

-- t.After(now - window)
abbrev pub recent_hits : Limits → Time → List Time → List Time
recent_hits limits now = select (λ t. ltb now (t + limits.window))

-- The key whose first hit is the oldest, or the first key without hits; `best` is the oldest so far.
unfoldable pub oldest_key : String → Time → Hits → String
oldest_key best oldest [] = best
oldest_key best oldest ((k, []) ∷ rest) = k
oldest_key best oldest ((k, t ∷ ts) ∷ rest) =
    if best == "" || ltb t oldest then oldest_key k t rest else oldest_key best oldest rest

abbrev pub is_known : Hits → String → Bool
is_known hits key = elim (at_key key hits) [ none ↦ false | some _ ↦ true ]

abbrev pub with_room : Hits → String → Hits
with_room hits key =
    if leb max_rate_limit_keys (length hits) && not (is_known hits key)
    then delete (oldest_key "" 0 hits) hits
    else hits

abbrev pub count_hit : Limits → Time → String → List Time → Hits → Bool × Hits
count_hit limits now key h hits =
    if leb limits.limit (length h)
    then (false, put key h hits)
    else (true, put key (h ++ (now ∷ [])) hits)

unfoldable pub allow : Limits → Time → String → Hits → Bool × Hits
unfolding oldest_key
allow limits now key hits =
    if eqb limits.limit 0
    then (true, hits)
    else count_hit limits now key (recent_hits limits now (or_no_hits (at_key key hits)))
        (with_room hits key)

abbrev pub before_first : List String → String → List String
before_first [] s = s ∷ []
before_first (p ∷ ps) s = s ∷ p ∷ ps

abbrev pub onto_first : String → List String → List String
onto_first s [] = s ∷ []
onto_first s (p ∷ ps) = s ∷ ps

abbrev pub first_part : List String → String
first_part [] = ""
first_part (p ∷ ps) = p

-- strings.Split(code, "-")
unfoldable pub split_dash : String → List String
split_dash String.[] = "" ∷ []
split_dash (String.◌∷◌ c s) =
    let rest = split_dash s in
    if String.◌∷◌ c String.[] == "-"
    then before_first rest ""
    else onto_first (String.◌∷◌ c (first_part rest)) rest

-- strings.ContainsAny(code, "ILOU")
unfoldable pub has_excluded : String → Bool
has_excluded String.[] = false
has_excluded (String.◌∷◌ c s) =
    let letter = String.◌∷◌ c String.[] in
    letter == "I" || letter == "L" || letter == "O" || letter == "U" || has_excluded s

abbrev pub normal_code : String → String
normal_code raw = to_upper (trim_space raw)

-- <EXAM6>-<PART6>: the first part, of a code of that shape without excluded letters
abbrev pub code_prefix : List String → Option String
code_prefix (exam ∷ part ∷ []) =
    if eqb (byte_len exam) 6 && eqb (byte_len part) 6 then some exam else none
code_prefix _ = none

unfoldable pub shape : String → Option String
unfolding split_dash has_excluded
shape code = if has_excluded code then none else code_prefix (split_dash code)

pub record Issuer : Type 0 where
  pub issue : String → String → String → String → World → Result String
  -- The expiry that reading the token gives, if it gives one that is not 0.
  pub expiry : String → Option ℕ
  -- time.Now().Add(ttl).Unix()
  pub default_expiry : Time → ℕ

pub record LoginResult : Type 0 where
  pub participant_id : String
  pub student_id : String
  pub exam_id : String
  pub deployment_id : String
  pub token : String
  pub expires_at : ℕ

abbrev pub code_row : Store → String → Option ParticipantRow
code_row d code = find? (λ p. p.access_code == code) d.participants

unfoldable pub find_participant_by_access_code : String → M ParticipantRow
find_participant_by_access_code code = query (λ d. or_err (code_row d code) invalid_access_code)

-- Every error of a lookup is the error of a code that is not valid.
abbrev pub or_invalid : {A : Type 0} → Result A → M A
or_invalid (ok a) = pure a
or_invalid (err e) = raise invalid_access_code

abbrev pub issue_token : Issuer → ParticipantRow → Exam → M String
issue_token issuer p exam w = (issuer.issue p.id p.student_id exam.id exam.deployment_id w, w)

abbrev pub expiry_of : Issuer → String → Time → ℕ
expiry_of issuer token now = elim (issuer.expiry token) [
  | none ↦ issuer.default_expiry now
  | some at ↦ at
]

unfoldable pub log_in : Issuer → String → String → M LoginResult
unfolding find_participant_by_access_code
log_in issuer code prefix = do
  found ← try (find_participant_by_access_code code)
  p ← or_invalid found
  guard (p.access_code == code) invalid_access_code
  loaded ← try (find_exam_by_id p.exam_id)
  exam ← or_invalid loaded
  guard (prefix == exam.access_code_prefix) invalid_access_code
  token ← issue_token issuer p exam
  now ← time_now
  pure (record {
    participant_id = p.id;
    student_id = p.student_id;
    exam_id = exam.id;
    deployment_id = exam.deployment_id;
    token = token;
    expires_at = expiry_of issuer token now;
  })

abbrev pub LoggedIn : Type 0
LoggedIn = (Result LoginResult × Hits) × World

abbrev pub beside : Hits → Result LoginResult × World → LoggedIn
beside hits r = ((r.0, hits), r.1)

abbrev pub admitted : Issuer → String → String → Bool × Hits → World → LoggedIn
admitted issuer code prefix (false, hits) w = ((err too_many_attempts, hits), w)
admitted issuer code prefix (true, hits) w = beside hits (log_in issuer code prefix w)

abbrev pub clocked : Limits → String → Hits → World → (Bool × Hits) × World
clocked limits key hits w = (allow limits w.clock key hits, (time_now w).1)

-- A code without the shape is refused before it is counted.
unfoldable pub login_with :
    Limits → Issuer → String → Option String → String → Hits → World → LoggedIn
unfolding allow log_in
login_with limits issuer code none key hits w = ((err invalid_access_code, hits), w)
login_with limits issuer code (some prefix) key hits w =
    let (counted, w') = clocked limits key hits w in admitted issuer code prefix counted w'

-- login
abbrev pub login_as : Limits → Issuer → String → String → Hits → World → LoggedIn
login_as limits issuer raw key hits w =
    login_with limits issuer (normal_code raw) (shape (normal_code raw)) key hits w

abbrev pub joined_text : String → String → String
joined_text String.[] b = b
joined_text (String.◌∷◌ c a) b = String.◌∷◌ c (joined_text a b)

-- Login
abbrev pub login : Limits → Issuer → String → Hits → World → LoggedIn
login limits issuer raw hits w =
    login_as limits issuer raw (joined_text "code:" (normal_code raw)) hits w

-- LoginWithKey
abbrev pub login_with_key : Limits → Issuer → String → String → Hits → World → LoggedIn
login_with_key limits issuer raw client_key hits w =
    if trim_space client_key == ""
    then login limits issuer raw hits w
    else login_as limits issuer raw (joined_text "client:" (trim_space client_key)) hits w
