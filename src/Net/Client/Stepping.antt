-- ===== src/Net/Client/Stepping.antt =====
-- The rounds of the request thread of source/net/curl_client.cpp as steps of the client.
use ffnetwork.Common.{
  ℕ, not, true, if◌then◌else◌, ltb, length, ◌≡◌, refl, sym, ap, ◌∙◌, Bool, false, Bool-cases, List,
  [], ◌∷◌, ◌++◌, map, inl, inr, Outcome-cases, ok, ◌>>=◌, arith,
}
use mathlib.Core.Path.{fun_ext}
use ffnetwork.Common.Maps.{number_key, bytes_key}
use ffnetwork.Net.Request.{Bytes}
use ffnetwork.Net.Client.{
  Client, step, run, Posted, disposes, header_callback, start_request, cancel_request,
  do_start_request, do_cancel_request, run_posted, run_next, task_at, settle, tell, cleanup_request,
  handle_done,
}
use ffnetwork.Net.Client.Polling.{
  UserCall, as_step, LoopRun, users, run_flushes, multi_perform, CurlMsg, msg_done, msg_other,
  handle_msg, handle_msgs, handle_curl_msg, run_all, run_for_time, Round, Polled, poll, run_thread,
}
use ffnetwork.Net.Client.Replay.{
  turns, Item, drains, all_does, finished, received_steps, flush_items, loop_items, round_items,
  items, standing, going, ends, until_end, some_ends, replay, replay-append, replay-does,
  run-append,
}

with_posted : List Posted → Client → Client
with_posted ps c = record c { posted = ps }

run_posted-with_posted :
    (p : Posted) (ps : List Posted) (c : Client)
    → run_posted p (with_posted ps c) ≡ (do d ← run_posted p c; ok (with_posted ps d))
unfolding run_posted do_start_request do_cancel_request task_at settle tell cleanup_request
    with_posted
run_posted-with_posted (start_request h) ps c = ground arith
run_posted-with_posted (cancel_request h) ps c = ground arith

module _ (sha256 : Bytes → Bytes) where
  run_all-steps :
      (ps : List Posted) (c : Client)
      → run sha256 (turns ps) (with_posted ps c) ≡ run_all ps (with_posted [] c)
  unfolding run run_all step run_next with_posted
  run_all-steps [] c = refl
  run_all-steps (p ∷ ps) c = elim (Outcome-cases (run_posted p c)) [
    | inl (e, ran) ↦
        let first = λ (qs : List Posted).
          run_posted-with_posted p qs c ∙ ap (λ o. do x ← o; ok (with_posted qs x)) ran in
        ap (λ o. do x ← o; run sha256 (turns ps) x) (first ps)
        ∙ run_all-steps ps e
        ∙ sym (ap (λ o. do x ← o; run_all ps x) (first []))
    | inr (f, failed) ↦
        let first = λ (qs : List Posted).
          run_posted-with_posted p qs c ∙ ap (λ o. do x ← o; ok (with_posted qs x)) failed in
        ap (λ o. do x ← o; run sha256 (turns ps) x) (first ps)
        ∙ sym (ap (λ o. do x ← o; run_all ps x) (first []))
  ]

  run_flushes-items :
      (fs : List (List UserCall)) (c : Client)
      → replay sha256 (flush_items fs) c ≡ run_flushes sha256 fs c
  unfolding replay run_flushes users
  run_flushes-items [] c = refl
  run_flushes-items (us ∷ fs) c =
      let split =
        replay-append sha256 (all_does (map as_step us)) (drains ∷ flush_items fs) c
        ∙ ap (λ o. do d ← o; replay sha256 (drains ∷ flush_items fs) d)
            (replay-does sha256 (map as_step us) c) in
      elim (Outcome-cases (run sha256 (map as_step us) c)) [
        | inr (f, e) ↦ rw (split, e)
        | inl (c1, e) ↦
            let drained : run sha256 (turns c1.posted) c1
                ≡ run_all c1.posted (record c1 { posted = [] }) =
              unfold with_posted in run_all-steps c1.posted c1 in
            elim (Outcome-cases (run_all c1.posted (record c1 { posted = [] }))) [
              | inr (f, e2) ↦ rw (split, e, drained, e2)
              | inl (c2, e2) ↦ rw (split, e, drained, e2) (run_flushes-items fs c2)
            ]
      ]

  run_for_time-items :
      (l : LoopRun) (c : Client) → replay sha256 (loop_items l) c ≡ run_for_time sha256 l c
  unfolding replay run_for_time users run step
  run_for_time-items l c = elim (Bool-cases l.terminated) [
    | inl off ↦ rw off
    | inr on ↦
        let fs = l.earlier ++ l.last ∷ [] in
        let late = map as_step l.late in
        let split : replay sha256 (flush_items fs ++ all_does (late ++ disposes ∷ [])) c
            ≡ (do d ← run_flushes sha256 fs c; run sha256 (late ++ disposes ∷ []) d) =
          replay-append sha256 (flush_items fs) (all_does (late ++ disposes ∷ [])) c
          ∙ ap (λ o. do d ← o; replay sha256 (all_does (late ++ disposes ∷ [])) d)
              (run_flushes-items fs c)
          ∙ ap (λ g. do d ← run_flushes sha256 fs c; g d)
              (fun_ext (λ d. replay-does sha256 (late ++ disposes ∷ []) d)) in
        elim (Outcome-cases (run_flushes sha256 fs c)) [
          | inr (f, e1) ↦ rw (on, split, e1)
          | inl (c1, e1) ↦ rw (on, split, e1, run-append sha256 late (disposes ∷ []) c1)
        ]
  ]

  handle_msgs-steps :
      (ms : List CurlMsg) (c : Client) → run sha256 (finished ms) c ≡ handle_msgs ms c
  unfolding run step handle_msgs handle_msg
  handle_msgs-steps [] c = refl
  handle_msgs-steps (msg_other ∷ ms) c = handle_msgs-steps ms c
  handle_msgs-steps (msg_done handle status result ∷ ms) c =
      elim (Outcome-cases (handle_done handle status result c)) [
        | inl (d, e) ↦ rw (e, handle_msgs-steps ms d)
        | inr (f, e) ↦ rw e
      ]

  multi_perform-steps :
      (ls : List (ℕ × Bytes)) (c : Client) → run sha256 (received_steps ls) c ≡ multi_perform ls c
  unfolding run step multi_perform
  multi_perform-steps [] c = refl
  multi_perform-steps ((handle, line) ∷ ls) c =
      elim (Outcome-cases (header_callback handle line c)) [
        | inl (d, e) ↦ rw (e, multi_perform-steps ls d)
        | inr (f, e) ↦ rw e
      ]

  reported-steps :
      (r : Round) (c : Client)
      → replay sha256 (all_does (received_steps r.received ++ finished r.messages)) c
        ≡ (do c0 ← multi_perform r.received c; handle_msgs r.messages c0)
  unfolding run
  reported-steps r c =
      replay-does sha256 (received_steps r.received ++ finished r.messages) c
      ∙ run-append sha256 (received_steps r.received) (finished r.messages) c
      ∙ ap (λ o. do c0 ← o; run sha256 (finished r.messages) c0) (multi_perform-steps r.received c)
      ∙ ap (λ g. do c0 ← multi_perform r.received c; g c0)
          (fun_ext (λ d. handle_msgs-steps r.messages d))

  -- A round of a thread that goes on.
  poll-items :
      (multi : Bool) (r : Round) (p : Polled)
      → p.running ≡ true
      → (do q ← poll sha256 multi r p; ok (standing q))
        ≡ (do c ← replay sha256 (round_items r) p.client; going (not (ends r)) c)
  unfolding poll handle_curl_msg replay ends
  poll-items multi r p on =
      let steps = all_does (received_steps r.received ++ finished r.messages) in
      let split = λ (js : List Item).
        replay-append sha256 steps js p.client
        ∙ ap (λ o. do d ← o; replay sha256 js d) (reported-steps r p.client) in
      elim (Bool-cases r.stop) [
        | inl stops ↦ rw stops
        | inr goes ↦ elim (Outcome-cases (multi_perform r.received p.client)) [
          | inr (f, e0) ↦ rw (goes, split _, e0)
          | inl (c0, e0) ↦ elim (Outcome-cases (handle_msgs r.messages c0)) [
            | inr (f, e) ↦ rw (goes, split _, e0, e)
            | inl (c, e) ↦ elim (Bool-cases (ltb 0 (length r.messages))) [
              | inl handled ↦ rw (goes, handled, split [], e0, e, on)
              | inr none_handled ↦
                  let looped = run_for_time-items r.loop_run c in
                  elim (Outcome-cases (run_for_time sha256 r.loop_run c)) [
                    | inr (f, e2) ↦ rw (goes, none_handled, split _, e0, e, looped, e2)
                    | inl (d, e2) ↦
                        rw (goes, none_handled, split _, e0, e, looped, e2) (ground arith)
                  ]
            ]
          ]
        ]
      ]

  run_thread-over :
      (multi : Bool) (rs : List Round) (p : Polled)
      → p.running ≡ false
      → run_thread sha256 multi rs p ≡ ok p
  unfolding run_thread
  run_thread-over multi [] p over = refl
  run_thread-over multi (r ∷ rs) p over = rw over

  -- What the request thread, while it runs, does to the client in any rounds is what these steps
  -- do in this order, with the same fault if one fails: in each round, up to the first that ends
  -- the thread, the header lines that arrived and the ends of transfers that libcurl reported;
  -- then, if it reported nothing and the loop is not terminated, for each flush what users did
  -- before it and the closures that are then posted, one by one, and at last what users did
  -- until the disposal, which drops what is posted then. A round ends the thread if
  -- is_terminated_ is set at its start, or at its end when libcurl had no messages and no
  -- transfers; if none does, the thread runs on.
  pub run_thread-replay :
      (multi : Bool) (rs : List Round) (p : Polled)
      → p.running ≡ true
      → (do q ← run_thread sha256 multi rs p; ok (standing q))
        ≡ (do c ← replay sha256 (items (until_end rs)) p.client; going (not (some_ends rs)) c)
  unfolding run_thread replay
  run_thread-replay multi [] p on = ap (λ b. going b p.client) on
  run_thread-replay multi (r ∷ rs) p on =
      let round = poll-items multi r p on in
      let split =
        replay-append sha256 (round_items r) (items (if ends r then [] else until_end rs))
          p.client in
      elim (Outcome-cases (replay sha256 (round_items r) p.client)) [
        | inr (g, e3) ↦ elim (Outcome-cases (poll sha256 multi r p)) [
          | inr (f, e) ↦ rw (e, on, split, e3) (rw (e, e3) at round)
          | inl (p1, e) ↦ absurd (ground arith)
        ]
        | inl (c, e3) ↦ elim (Outcome-cases (poll sha256 multi r p)) [
          | inr (f, e) ↦ absurd (ground arith)
          | inl (p1, e) ↦
              let left : p1.client ≡ c = ground arith in
              let goes : p1.running ≡ not (ends r) = ground arith in
              elim (Bool-cases (ends r)) [
                | inl over ↦
                    rw (e, on, split, e3, over, run_thread-over multi rs p1 (goes ∙ ap not over))
                      (ground arith)
                | inr further ↦
                    rw (e, on, split, e3, further)
                      (run_thread-replay multi rs p1 (goes ∙ ap not further)
                        ∙ ap
                            (λ d. do
                              c' ← replay sha256 (items (until_end rs)) d
                              going (not (some_ends rs)) c')
                            left)
              ]
        ]
      ]
