-- ===== src/Domain/Run/Spelling.antt =====
-- About `as_str` and `from_str` of the enums of crates/rewind-domain/src/run.rs.
use rewind_git_for_ai_agent.Prelude.{
  [], ◌∷◌, ◌≡◌, refl, sym, ap, ◌∙◌, ◌↔◌, ok, List, All, Bool-cases, inl, inr,
}
use rewind_git_for_ai_agent.Bytes.{Bytes, bytes_eq, cmp}
use rewind_git_for_ai_agent.Bytes.Compare.{bytes_eq_iff}
use rewind_git_for_ai_agent.Domain.Run.{
  Platform, mac_os_aarch64, linux_x86_64, linux_aarch64, InputRecordingPolicy, auto, always, never,
  RunStatus, preparing, running, completed, failed, interrupted, crashed, CheckpointReason, initial,
  manual, process_boundary, filesystem_quiescence, agent_adapter, final, match_text,
  platform_as_str, platform_from_str, policy_as_str, policy_from_str, status_as_str,
  status_from_str, reason_as_str, reason_from_str,
}

-- An arm of a `match` that is taken gives the value beside its text.
match_text_sound {ℓ} :
    {A : Type ℓ} (text_of : A → Bytes) (arms : List (Bytes × A)) (input : Bytes) (a : A)
    → All (λ arm. text_of arm.1 ≡ arm.0) arms
    → match_text arms input ≡ ok a
    → input ≡ text_of a
unfolding match_text
match_text_sound text_of [] input a t h = cc
match_text_sound text_of ((text, value) ∷ arms) input a t h =
    elim (Bool-cases (bytes_eq input text)) [
      | inl e ↦
          let k : ok value ≡ ok a = rw (match_text, e) at h in
          let v : value ≡ a = cc in (bytes_eq_iff input text).0 e ∙ sym t.0 ∙ ap text_of v
      | inr n ↦ match_text_sound text_of arms input a t.1 (rw (match_text, n) at h)
    ]

platform_from_str-as_str : (value : Platform) → platform_from_str (platform_as_str value) ≡ ok value
unfolding platform_from_str platform_as_str match_text bytes_eq cmp
platform_from_str-as_str mac_os_aarch64 = refl
platform_from_str-as_str linux_x86_64 = refl
platform_from_str-as_str linux_aarch64 = refl

platform_from_str_iff :
    (text : Bytes) (value : Platform)
    → (platform_from_str text ≡ ok value) ↔ (text ≡ platform_as_str value)
unfolding platform_from_str platform_as_str
platform_from_str_iff text value = (
  match_text_sound platform_as_str _ text value (refl, (refl, (refl, tt))),
  λ e. rw e (platform_from_str-as_str value),
)

policy_from_str-as_str :
    (value : InputRecordingPolicy) → policy_from_str (policy_as_str value) ≡ ok value
unfolding policy_from_str policy_as_str match_text bytes_eq cmp
policy_from_str-as_str auto = refl
policy_from_str-as_str always = refl
policy_from_str-as_str never = refl

policy_from_str_iff :
    (text : Bytes) (value : InputRecordingPolicy)
    → (policy_from_str text ≡ ok value) ↔ (text ≡ policy_as_str value)
unfolding policy_from_str policy_as_str
policy_from_str_iff text value = (
  match_text_sound policy_as_str _ text value (refl, (refl, (refl, tt))),
  λ e. rw e (policy_from_str-as_str value),
)

status_from_str-as_str : (value : RunStatus) → status_from_str (status_as_str value) ≡ ok value
unfolding status_from_str status_as_str match_text bytes_eq cmp
status_from_str-as_str preparing = refl
status_from_str-as_str running = refl
status_from_str-as_str completed = refl
status_from_str-as_str failed = refl
status_from_str-as_str interrupted = refl
status_from_str-as_str crashed = refl

status_from_str_iff :
    (text : Bytes) (value : RunStatus)
    → (status_from_str text ≡ ok value) ↔ (text ≡ status_as_str value)
unfolding status_from_str status_as_str
status_from_str_iff text value = (
  match_text_sound status_as_str _ text value (refl, (refl, (refl, (refl, (refl, (refl, tt)))))),
  λ e. rw e (status_from_str-as_str value),
)

reason_from_str-as_str :
    (value : CheckpointReason) → reason_from_str (reason_as_str value) ≡ ok value
unfolding reason_from_str reason_as_str match_text bytes_eq cmp
reason_from_str-as_str initial = refl
reason_from_str-as_str manual = refl
reason_from_str-as_str process_boundary = refl
reason_from_str-as_str filesystem_quiescence = refl
reason_from_str-as_str agent_adapter = refl
reason_from_str-as_str final = refl

reason_from_str_iff :
    (text : Bytes) (value : CheckpointReason)
    → (reason_from_str text ≡ ok value) ↔ (text ≡ reason_as_str value)
unfolding reason_from_str reason_as_str
reason_from_str_iff text value = (
  match_text_sound reason_as_str _ text value (refl, (refl, (refl, (refl, (refl, (refl, tt)))))),
  λ e. rw e (reason_from_str-as_str value),
)

-- Each enum is read from exactly its own spelling: a text is accepted as a value if and only if it
-- is what the value is printed as.
pub from_str_iff-as_str :
    (text : Bytes) (platform : Platform) (policy : InputRecordingPolicy) (status : RunStatus)
    (reason : CheckpointReason)
    → ((platform_from_str text ≡ ok platform) ↔ (text ≡ platform_as_str platform))
      × ((policy_from_str text ≡ ok policy) ↔ (text ≡ policy_as_str policy))
      × ((status_from_str text ≡ ok status) ↔ (text ≡ status_as_str status))
      × ((reason_from_str text ≡ ok reason) ↔ (text ≡ reason_as_str reason))
from_str_iff-as_str text platform policy status reason = (
  platform_from_str_iff text platform,
  policy_from_str_iff text policy,
  status_from_str_iff text status,
  reason_from_str_iff text reason,
)
