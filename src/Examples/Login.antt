-- ===== src/Examples/Login.antt =====
-- A login with the code of a participant.
use bangkusekolah_exam_node.Base.{
  ◌≡◌, ◌≤◌, refl, arith, String, some, [], ◌∷◌, find?, select, put, at_key, to_upper, trim_space,
}
use bangkusekolah_exam_node.Entity.{minute}
use bangkusekolah_exam_node.Store.{Store}
use bangkusekolah_exam_node.Exec.{ok, query, time_now}
use bangkusekolah_exam_node.Exec.Hoare.{Outcome}
use bangkusekolah_exam_node.Repository.{find_exam_by_id}
use bangkusekolah_exam_node.Auth.{
  Limits, Issuer, shape, normal_code, allow, log_in, login_with, login_as,
  find_participant_by_access_code,
}
use bangkusekolah_exam_node.Auth.Rate.{RateBounded, after_calls, after_calls-RateBounded}
use bangkusekolah_exam_node.Auth.Window.{admitted_in, never_full, allow-bounds_window}
use bangkusekolah_exam_node.Auth.Login.{Authenticated, login_as-authenticates}
use bangkusekolah_exam_node.Examples.{math, ani, idle, world_of}

abbrev ten_a_minute : Limits
ten_a_minute = record { limit = 10; window = minute }

abbrev issuer : Issuer
issuer = record {
  issue = λ participant student exam deployment w. ok participant;
  expiry = λ token. some 5400;
  default_expiry = λ now. 0;
}

abbrev coded : Store
coded = record idle {
  exams = record math { access_code_prefix = "MATH26" } ∷ [];
  participants = record ani { access_code = "MATH26-AB12CD" } ∷ [];
}

-- The code is typed in small letters.
login_test :
    (login_as ten_a_minute issuer " math26-ab12cd " "code" [] (world_of coded)).0.0
    ≡ ok (record {
      participant_id = "ani";
      student_id = "s1";
      exam_id = "math";
      deployment_id = "dep";
      token = "ani";
      expires_at = 5400;
    })
unfolding login_with allow log_in find_participant_by_access_code find_exam_by_id query time_now
    shape to_upper trim_space find? select put at_key
login_test = refl

login_as-authenticates_example :
    let r = login_as ten_a_minute issuer " math26-ab12cd " "code" [] (world_of coded) in
    Outcome
      (λ l d.
        (prefix : String) × (shape (normal_code " math26-ab12cd ") ≡ some prefix)
        × Authenticated (normal_code " math26-ab12cd ") prefix coded l d)
      (λ d. d ≡ coded)
      (r.0.0, r.1)
login_as-authenticates_example =
    login_as-authenticates ten_a_minute issuer " math26-ab12cd " "code" [] (world_of coded)

after_calls-RateBounded_example :
    RateBounded ten_a_minute
      (after_calls ten_a_minute ((100, "a") ∷ (110, "b") ∷ (120, "a") ∷ []) [])
after_calls-RateBounded_example =
    after_calls-RateBounded ten_a_minute ((100, "a") ∷ (110, "b") ∷ (120, "a") ∷ [])

-- The third call in the window is refused.
abbrev two_a_minute : Limits
two_a_minute = record { limit = 2; window = minute }

allow-bounds_window_example :
    admitted_in two_a_minute "a" 130 ((100, "a") ∷ (110, "b") ∷ (120, "a") ∷ (130, "a") ∷ []) [] ≤ 2
unfolding never_full allow at_key put select
allow-bounds_window_example =
    allow-bounds_window two_a_minute "a" 130
      ((100, "a") ∷ (110, "b") ∷ (120, "a") ∷ (130, "a") ∷ []) (ground arith)
      (ground arith, (ground arith, (ground arith, (ground arith, tt)))) refl

admitted_test :
    admitted_in two_a_minute "a" 130 ((100, "a") ∷ (110, "b") ∷ (120, "a") ∷ (130, "a") ∷ []) [] ≡ 2
unfolding admitted_in allow at_key put select
admitted_test = refl
