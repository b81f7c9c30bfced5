-- ===== src/Net/Client/Once.antt =====
-- Completion callbacks of source/net/curl_client.cpp: each task calls its own once at most.
use mathlib.Core.Path.{subst}
use ffnetwork.Common.{
  Fault, ℕ, ◌≡◌, refl, sym, ◌∙◌, List, [], ◌∷◌, Option-cases, inl, inr, Outcome, Outcome-cases, ok,
  err, arith,
}
use ffnetwork.Common.Maps.{number_key, bytes_key, lookup, AllOf}
use ffnetwork.Net.Request.{Bytes, hash}
use ffnetwork.Net.Task.{Task, did_finished, did_cancelled, on_receive_header}
use ffnetwork.Net.Client.{
  Client, Step, step, run, task_with_request, settle, tell, cleanup_request, new_client, CurlCode,
  Posted, do_cancel_request, do_start_request, task_at, run_next, run_posted, handle_done,
  header_callback, request_task_start, request_task_cancel, post, start_request, cancel_request,
  creates, disposes, starts, cancels, runs, receives, finishes,
}
use ffnetwork.Net.Client.Access.{task_at-eq, task_at-none, mapped-eq, mapped-none}
use ffnetwork.Net.Client.Pending.{NotBy, Distinct, InvOf, settle-Inv, create-Inv, update-Inv}

pub on_receive_header-identifier :
    (line : Bytes) (t : Task) → (on_receive_header line t).identifier ≡ t.identifier
unfolding on_receive_header
on_receive_header-identifier line t = ground arith

-- What a step of a client does to the invariant.
abbrev pub Keeps : Outcome Client → Type 0
Keeps (ok c) = InvOf c
Keeps (err f) = Unit

module _ (c : Client) (inv : InvOf c) where
  cancel-Keeps : (h : Bytes) → Keeps (do_cancel_request h c)
  unfolding do_cancel_request task_at cleanup_request tell settle did_cancelled
  cancel-Keeps h = elim (Option-cases (lookup h c.request_task_map)) [
    | inl missing ↦ rw (missing, do_cancel_request) inv
    | inr (id, at) ↦
        let p = inv.pending h id at in
        rw (at, do_cancel_request, task_at-eq c id p.task p.there)
          (settle-Inv c.tasks c.next_task c.request_task_map c.events inv h id _ _ at)
  ]

  start-Keeps : (h : Bytes) → Keeps (do_start_request h c)
  unfolding do_start_request task_at tell
  start-Keeps h = elim (Option-cases (lookup h c.request_task_map)) [
    | inl missing ↦ rw (missing, do_start_request) inv
    | inr (id, at) ↦
        let p = inv.pending h id at in rw (at, do_start_request, task_at-eq c id p.task p.there) inv
  ]

  done-Keeps : (handle status : ℕ) (result : CurlCode) → Keeps (handle_done handle status result c)
  unfolding handle_done cleanup_request tell settle did_finished
  done-Keeps handle status result = elim (Option-cases (lookup handle c.tasks)) [
    | inl missing ↦ rw (task_at-none c handle missing, handle_done) tt
    | inr (t, there) ↦ elim (Option-cases (lookup t.identifier c.request_task_map)) [
      | inl missing ↦
          rw (task_at-eq c handle t there, mapped-none c t.identifier missing, handle_done) tt
      | inr (id, at) ↦
          let p = inv.pending t.identifier id at in
          rw
            (
              task_at-eq c handle t there,
              mapped-eq c t.identifier id at,
              task_at-eq c id p.task p.there,
              handle_done,
            )
            (settle-Inv c.tasks c.next_task c.request_task_map c.events inv t.identifier id _ _ at)
    ]
  ]

  header-Keeps : (id : ℕ) (line : Bytes) → Keeps (header_callback id line c)
  unfolding header_callback
  header-Keeps id line = elim (Option-cases (lookup id c.tasks)) [
    | inl missing ↦ rw (task_at-none c id missing, header_callback) tt
    | inr (t, there) ↦
        rw (task_at-eq c id t there, header_callback)
          (update-Inv c.tasks c.next_task c.request_task_map c.events inv id t _ there
            (on_receive_header-identifier line t))
  ]

  posts-Keeps : (id : ℕ) → Keeps (request_task_start id c) × Keeps (request_task_cancel id c)
  unfolding request_task_start request_task_cancel post
  posts-Keeps id = elim (Option-cases (lookup id c.tasks)) [
    | inl missing ↦ (
      rw (task_at-none c id missing, request_task_start) tt,
      rw (task_at-none c id missing, request_task_cancel) tt,
    )
    | inr (t, there) ↦ (
      rw (task_at-eq c id t there, request_task_start) inv,
      rw (task_at-eq c id t there, request_task_cancel) inv,
    )
  ]

run_posted-Keeps : (p : Posted) (c : Client) → InvOf c → Keeps (run_posted p c)
unfolding run_posted
run_posted-Keeps (start_request h) c inv = start-Keeps c inv h
run_posted-Keeps (cancel_request h) c inv = cancel-Keeps c inv h

run_next-Keeps : (c : Client) (ps : List Posted) → c.posted ≡ ps → InvOf c → Keeps (run_next c)
unfolding run_next
run_next-Keeps c [] e inv = rw (e, run_next) inv
run_next-Keeps c (p ∷ ps) e inv =
    rw (e, run_next) (run_posted-Keeps p (record c { posted = ps }) inv)

pub step-Keeps :
    (sha256 : Bytes → Bytes) (s : Step) (c : Client) → InvOf c → Keeps (step sha256 s c)
unfolding step task_with_request
step-Keeps sha256 (creates r k kept) c inv =
    create-Inv c.tasks c.next_task c.request_task_map c.events inv (hash sha256 r) _ kept refl
step-Keeps sha256 disposes c inv = inv
step-Keeps sha256 (starts id) c inv = (posts-Keeps c inv id).0
step-Keeps sha256 (cancels id) c inv = (posts-Keeps c inv id).1
step-Keeps sha256 runs c inv = run_next-Keeps c c.posted refl inv
step-Keeps sha256 (receives id line) c inv = header-Keeps c inv id line
step-Keeps sha256 (finishes id status result) c inv = done-Keeps c inv id status result

pub run-ok :
    (sha256 : Bytes → Bytes) (s : Step) (ss : List Step) (c c1 : Client)
    → step sha256 s c ≡ ok c1
    → run sha256 (s ∷ ss) c ≡ run sha256 ss c1
unfolding run
run-ok sha256 s ss c c1 h = rw h

run-err :
    (sha256 : Bytes → Bytes) (s : Step) (ss : List Step) (c : Client) (f : Fault)
    → step sha256 s c ≡ err f
    → run sha256 (s ∷ ss) c ≡ err f
unfolding run
run-err sha256 s ss c f h = rw h

run-InvOf :
    (sha256 : Bytes → Bytes) (ss : List Step) (c c' : Client)
    → InvOf c
    → run sha256 ss c ≡ ok c'
    → InvOf c'
unfolding run
run-InvOf sha256 [] c c' inv e = let same : c ≡ c' = cc in subst InvOf same inv
run-InvOf sha256 (s ∷ ss) c c' inv e = elim (Outcome-cases (step sha256 s c)) [
  | inl (c1, h) ↦
      run-InvOf sha256 ss c1 c' (subst Keeps h (step-Keeps sha256 s c inv))
        (sym (run-ok sha256 s ss c c1 h) ∙ e)
  | inr (f, h) ↦ let failed = sym (run-err sha256 s ss c f h) ∙ e in absurd cc
]

pub new_client-InvOf : InvOf new_client
unfolding lookup
new_client-InvOf = record { pending = λ h id e. cc; past = tt; distinct = tt }

-- In a history of a new client that returned, no task calls its completion callback twice, and no
-- task that the map still holds has called it.
pub run-Distinct :
    (sha256 : Bytes → Bytes) (ss : List Step) (c : Client)
    → run sha256 ss new_client ≡ ok c
    → Distinct c.events × AllOf (λ h id. NotBy id c.events) c.request_task_map
run-Distinct sha256 ss c e =
    let inv = run-InvOf sha256 ss new_client c new_client-InvOf e in
    (inv.distinct, λ h id at. (inv.pending h id at).silent)
