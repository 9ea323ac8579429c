-- ===== src/DispRemote/Answers.antt =====
-- lingo-dispremote/handler.go: what holds of its answers.
use ipod.Base.{
  ℕ, ◌≤◌, ◌≡◌, refl, ap, ◌∙◌, ◌⊎◌, inl, inr, Option, none, some, List, [], ◌∷◌, ◌++◌, arith, Result,
  ok, err, panic, ◌==◌, if◌then◌else◌, Bool-cases, length, All,
}
use ipod.DispRemote.Payloads.{DispPayload, set_remote_event_notification}
use ipod.DispRemote.Info.{InfoData, info_type, new_info}
use ipod.Command.{Command, Payload, known, unknown, Out}
use ipod.DispRemote.Notify.{DispHandler, set_event_mask}
use ipod.DispRemote.Handler.{Device, Now, state_info, answer, after, finish, handle_payload, handle}

-- An answer of the type that was asked for, for every type that can be read.
data Matches (t : ℕ) : Option InfoData → Option InfoData → Type 0 where
  both : (d new : InfoData) → info_type d ≡ t → Matches t (some d) (some new)
  neither : Matches t none none

step :
    (t k : ℕ) (d new : InfoData) (answers news : Option InfoData)
    → info_type d ≡ k
    → Matches t answers news
    → Matches t (if t == k then some d else answers) (if t == k then some new else news)
step t k d new answers news e more = elim (Bool-cases (t == k)) [
  | inl hit ↦ rw hit (both d new (e ∙ ground (arith, hit)))
  | inr miss ↦ rw miss more
]

state_info-Matches :
    (h : DispHandler) (dev : Option Device) (now : Now) (t : ℕ)
    → Matches t (state_info h dev now t) (new_info t)
unfolding state_info new_info info_type
state_info-Matches h dev now t = step t 0 _ _ _ _ refl (
    step t 1 _ _ _ _ refl (
      step t 2 _ _ _ _ refl (
        step t 3 _ _ _ _ refl (
          step t 4 _ _ _ _ refl (
            step t 5 _ _ _ _ refl (
              step t 6 _ _ _ _ refl (
                step t 7 _ _ _ _ refl (
                  step t 8 _ _ _ _ refl (
                    step t 9 _ _ _ _ refl (
                      step t 11 _ _ _ _ refl (
                        step t 12 _ _ _ _ refl (
                          step t 13 _ _ _ _ refl (
                            step t 14 _ _ _ _ refl
                              (step t 15 _ _ _ _ refl (step t 16 _ _ _ _ refl neither)))))))))))))))

-- A state is asked for by a type that the other side can read, and is answered by one of that type; any
-- other type is an error.
pub state_info_cases :
    (h : DispHandler) (dev : Option Device) (now : Now) (t : ℕ)
    → ((d : InfoData) × (state_info h dev now t ≡ some d) × (info_type d ≡ t))
      ⊎ ((state_info h dev now t ≡ none) × (new_info t ≡ none))
state_info_cases h dev now t =
    by_match (state_info h dev now t) (new_info t) refl refl (state_info-Matches h dev now t)
  where
    by_match :
        (answers news : Option InfoData)
        → state_info h dev now t ≡ answers
        → new_info t ≡ news
        → Matches t answers news
        → ((d : InfoData) × (state_info h dev now t ≡ some d) × (info_type d ≡ t))
          ⊎ ((state_info h dev now t ≡ none) × (new_info t ≡ none))
    by_match (some d) (some _) e e' (both _ _ m) = inl (d, e, m)
    by_match none none e e' neither = inr (e, e')
    by_match none (some _) e e' m = elim m [ ]
    by_match (some d) none e e' m = elim m [ ]

-- The replies that a request adds: one at most, with the request's transaction.
pub record Replied (req : Command DispPayload) (before later : Out DispPayload) : Type 0 where
  pub replies : List (Command DispPayload)
  pub later_lem : later.commands ≡ before.commands ++ replies
  pub at_most_one : length replies ≤ 1
  pub same_transaction : All (λ c. c.transaction ≡ req.transaction) replies
  pub counter : later.trx_counter ≡ before.trx_counter

-- The mask that a request sets, if it sets one.
abbrev pub sets_mask : Option (Payload DispPayload) → Option ℕ
sets_mask (some (known (set_remote_event_notification mask))) = some mask
sets_mask _ = none

abbrev pub last_mask : ℕ → List (Command DispPayload) → ℕ
last_mask before [] = before
last_mask before (req ∷ reqs) = elim (sets_mask req.payload) [
  | none ↦ last_mask before reqs
  | some mask ↦ last_mask mask reqs
]

-- The handler and the writer behind a sequence of requests.
abbrev pub handle_all :
    DispHandler
    → List (Command DispPayload)
    → Out DispPayload
    → Option Device
    → Now
    → DispHandler × Out DispPayload
handle_all h [] out dev now = (h, out)
handle_all h (req ∷ reqs) out dev now =
    let done = (handle h req out dev now).0 in handle_all done.0 reqs done.1 dev now

after_same :
    (h : DispHandler) (msg : DispPayload) → sets_mask (some (known msg)) ≡ none → after h msg ≡ h
unfolding after
after_same h (set_remote_event_notification mask) e = absurd (cc e)
after_same h _ e = refl

finish_same :
    (h : DispHandler) (req : Command DispPayload) (out : Out DispPayload) (msg : DispPayload)
    (reply : Result (Option DispPayload))
    → sets_mask (some (known msg)) ≡ none
    → (finish h req out msg reply).0.0 ≡ h
unfolding finish
finish_same h req out msg (ok reply) e = after_same h msg e
finish_same h req out msg (err x) e = refl
finish_same h req out msg panic e = refl

handle_mask :
    (h : DispHandler) (req : Command DispPayload) (out : Out DispPayload) (dev : Option Device)
    (now : Now)
    → (handle h req out dev now).0.0.event_mask
      ≡ elim (sets_mask req.payload) [ none ↦ h.event_mask | some mask ↦ mask ]
unfolding handle handle_payload finish answer after set_event_mask
handle_mask h req out dev now = by_payload req.payload
  where
    quiet :
        (msg : DispPayload)
        → sets_mask (some (known msg)) ≡ none
        → (finish h req out msg (answer h dev now req msg)).0.0.event_mask ≡ h.event_mask
    quiet msg e =
        ap (λ (x : DispHandler). x.event_mask)
          (finish_same h req out msg (answer h dev now req msg) e)

    by_payload :
        (payload : Option (Payload DispPayload))
        → (handle_payload h req out dev now payload).0.0.event_mask
          ≡ elim (sets_mask payload) [ none ↦ h.event_mask | some mask ↦ mask ]
    by_payload none = refl
    by_payload (some (unknown bytes)) = refl
    by_payload (some (known (set_remote_event_notification mask))) = refl
    by_payload (some (known msg)) = quiet msg refl

-- The events that the other side is told of are the ones it asked for last: behind any sequence of
-- requests, the handler's mask is that of the last SetRemoteEventNotification among them, and as before
-- if there was none.
pub handle_all-last_mask :
    (reqs : List (Command DispPayload)) (h : DispHandler) (out : Out DispPayload)
    (dev : Option Device) (now : Now)
    → (handle_all h reqs out dev now).0.event_mask ≡ last_mask h.event_mask reqs
handle_all-last_mask [] h out dev now = refl
handle_all-last_mask (req ∷ reqs) h out dev now =
    let done = (handle h req out dev now).0 in
    handle_all-last_mask reqs done.0 done.1 dev now
    ∙ ap (λ mask. last_mask mask reqs) (handle_mask h req out dev now)
    ∙ mask_step (sets_mask req.payload)
  where
    mask_step :
        (set : Option ℕ)
        → last_mask (elim set [ none ↦ h.event_mask | some mask ↦ mask ]) reqs
          ≡ elim set [ none ↦ last_mask h.event_mask reqs | some mask ↦ last_mask mask reqs ]
    mask_step none = refl
    mask_step (some mask) = refl
