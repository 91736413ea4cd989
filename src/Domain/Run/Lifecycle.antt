-- ===== src/Domain/Run/Lifecycle.antt =====
-- About `RunStatus::transition_to` of crates/rewind-domain/src/run.rs: sequences of requests.
use rewind_git_for_ai_agent.Prelude.{
  ℕ, ◌+◌, ◌≤◌, ◌<◌, List, [], ◌∷◌, ◌≡◌, ◌⊎◌, inl, inr, suc, refl, ◌↔◌, true, ok, err, arith,
}
use rewind_git_for_ai_agent.Domain.Run.{
  RunStatus, preparing, running, completed, failed, interrupted, crashed, can_transition_to,
  transition_to, is_terminal,
}

-- How far a status is from the start.
unfoldable pub rank : RunStatus → ℕ
rank preparing = 0
rank running = 1
rank status = 2

transition_to_iff :
    (s t u : RunStatus) → (transition_to s t ≡ ok u) ↔ ((can_transition_to s t ≡ true) × (u ≡ t))
unfolding transition_to
transition_to_iff s t u = ground arith

-- The statuses that a sequence of requests, accepted or not, leads through.
unfoldable pub after_requests : RunStatus → List RunStatus → RunStatus
after_requests status [] = status
after_requests status (next ∷ requests) = elim (transition_to status next) [
  | ok changed ↦ after_requests changed requests
  | err rejected ↦ after_requests status requests
]

terminal_stays :
    (status next : RunStatus)
    → is_terminal status ≡ true
    → transition_to status next ≡ err (record { from = status; to = next })
unfolding transition_to can_transition_to is_terminal
terminal_stays preparing next h = cc
terminal_stays running next h = cc
terminal_stays completed next h = refl
terminal_stays failed next h = refl
terminal_stays interrupted next h = refl
terminal_stays crashed next h = refl

-- A terminal status survives every sequence of requests.
pub after_requests_terminal :
    (status : RunStatus) (requests : List RunStatus)
    → is_terminal status ≡ true
    → after_requests status requests ≡ status
unfolding after_requests
after_requests_terminal status [] h = refl
after_requests_terminal status (next ∷ requests) h =
    rw (after_requests, terminal_stays status next h) (after_requests_terminal status requests h)

-- How many of the requests change the status.
unfoldable pub accepted_requests : RunStatus → List RunStatus → ℕ
accepted_requests status [] = 0
accepted_requests status (next ∷ requests) = elim (transition_to status next) [
  | ok changed ↦ suc (accepted_requests changed requests)
  | err rejected ↦ accepted_requests status requests
]

transition_to-rank :
    (status next : RunStatus)
    → ((transition_to status next ≡ ok next) × (rank status < rank next))
      ⊎ (transition_to status next ≡ err (record { from = status; to = next }))
unfolding transition_to can_transition_to rank
transition_to-rank preparing next = ground arith
transition_to-rank running next = ground arith
transition_to-rank completed next = inr refl
transition_to-rank failed next = inr refl
transition_to-rank interrupted next = inr refl
transition_to-rank crashed next = inr refl

rank_le : (status : RunStatus) → rank status ≤ 2
unfolding rank
rank_le status = ground arith

-- Every accepted request moves a run forward, from `preparing` over `running` to a terminal status: the
-- status behind any requests is at least as many steps further as requests were accepted. So the status
-- changes at most twice from `preparing`, once from `running`, and not at all from a terminal status.
pub accepted_requests-rank :
    (status : RunStatus) (requests : List RunStatus)
    → (accepted_requests status requests + rank status ≤ rank (after_requests status requests))
      × (accepted_requests status requests + rank status ≤ 2)
unfolding accepted_requests after_requests
accepted_requests-rank status [] = (omega arith, omega (arith, rank_le status))
accepted_requests-rank status (next ∷ requests) = elim (transition_to-rank status next) [
  | inl h ↦
      let (further, few) = accepted_requests-rank next requests in
      rw (accepted_requests, after_requests, h.0)
        (omega (arith, h.1, further), omega (arith, h.1, few))
  | inr e ↦ rw (accepted_requests, after_requests, e) (accepted_requests-rank status requests)
]
