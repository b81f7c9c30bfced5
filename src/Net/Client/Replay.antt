-- ===== src/Net/Client/Replay.antt =====
-- What happens to a client in the rounds of the request thread of source/net/curl_client.cpp, as a
-- list of steps of the client and of runs of its loop.
use ffnetwork.Common.{
  ℕ, not, ◌||◌, ◌&&◌, if◌then◌else◌, Outcome, ltb, length, ◌≡◌, refl, Bool, false, List, [], ◌∷◌,
  ◌++◌, map, inl, inr, Outcome-cases, ok, ◌>>=◌,
}
use ffnetwork.Common.Maps.{number_key, bytes_key}
use ffnetwork.Net.Request.{Bytes}
use ffnetwork.Net.Client.{Client, Step, step, run, Posted, disposes, runs, receives, finishes}
use ffnetwork.Net.Client.Polling.{
  UserCall, as_step, LoopRun, CurlMsg, msg_done, msg_other, Round, Polled,
}

-- As many steps of the loop as these are.
abbrev pub turns : List Posted → List Step
turns ps = map (λ p. runs) ps

-- What happens to a client in a round: steps, and runs of the loop over all that is posted.
pub data Item : Type 0 where
  does : Step → Item
  drains : Item

abbrev pub all_does : List Step → List Item
all_does ss = map does ss

-- The ends of transfers among these messages.
abbrev pub finished : List CurlMsg → List Step
finished [] = []
finished (msg_done handle status result ∷ ms) = finishes handle status result ∷ finished ms
finished (msg_other ∷ ms) = finished ms

abbrev pub received_steps : List (ℕ × Bytes) → List Step
received_steps ls = map (λ l. receives l.0 l.1) ls

abbrev pub flush_items : List (List UserCall) → List Item
flush_items [] = []
flush_items (us ∷ fs) = all_does (map as_step us) ++ drains ∷ flush_items fs

abbrev pub loop_items : LoopRun → List Item
loop_items l =
    if l.terminated
    then []
    else flush_items (l.earlier ++ l.last ∷ []) ++ all_does (map as_step l.late ++ disposes ∷ [])

-- The lines that arrived and the ends of transfers; then, if libcurl had no message, the flushes of
-- the loop, each after what users did before it, and the disposal, after what they did before that.
abbrev pub round_items : Round → List Item
round_items r =
    if r.stop
    then []
    else all_does (received_steps r.received ++ finished r.messages)
      ++ (if ltb 0 (length r.messages) then [] else loop_items r.loop_run)

abbrev pub items : List Round → List Item
items [] = []
items (r ∷ rs) = round_items r ++ items rs

-- The client, and whether the thread goes on.
abbrev pub standing : Polled → Client × Bool
standing p = (p.client, p.running)

abbrev pub going : Bool → Client → Outcome (Client × Bool)
going b c = ok (c, b)

-- Whether the thread ends at this round: `is_terminated_` is set at its start, or at its end, when
-- libcurl has neither messages nor transfers.
unfoldable pub ends : Round → Bool
ends r = r.stop || (not (ltb 0 (length r.messages)) && (not (ltb 0 r.active) && r.stop_later))

-- The rounds up to the first at which the thread ends.
abbrev pub until_end : List Round → List Round
until_end [] = []
until_end (r ∷ rs) = r ∷ (if ends r then [] else until_end rs)

abbrev pub some_ends : List Round → Bool
some_ends [] = false
some_ends (r ∷ rs) = ends r || some_ends rs

module _ (sha256 : Bytes → Bytes) where
  -- A run of the loop takes the closures that are posted one by one, each by the step `runs`.
  unfoldable pub replay : List Item → Client → Outcome Client
  unfolding run
  replay [] c = ok c
  replay (does s ∷ is) c = do c' ← step sha256 s c; replay is c'
  replay (drains ∷ is) c = do c' ← run sha256 (turns c.posted) c; replay is c'

  pub replay-append :
      (is js : List Item) (c : Client) → replay (is ++ js) c ≡ (do d ← replay is c; replay js d)
  unfolding replay
  replay-append [] js c = refl
  replay-append (does s ∷ is) js c = elim (Outcome-cases (step sha256 s c)) [
    | inl (c1, e) ↦ rw (e, replay-append is js c1)
    | inr (f, e) ↦ rw e
  ]
  replay-append (drains ∷ is) js c = elim (Outcome-cases (run sha256 (turns c.posted) c)) [
    | inl (c1, e) ↦ rw (e, replay-append is js c1)
    | inr (f, e) ↦ rw e
  ]

  pub replay-does : (ss : List Step) (c : Client) → replay (all_does ss) c ≡ run sha256 ss c
  unfolding replay run
  replay-does [] c = refl
  replay-does (s ∷ ss) c = elim (Outcome-cases (step sha256 s c)) [
    | inl (c1, e) ↦ rw (e, replay-does ss c1)
    | inr (f, e) ↦ rw e
  ]

  pub run-append :
      (ss ts : List Step) (c : Client)
      → run sha256 (ss ++ ts) c ≡ (do d ← run sha256 ss c; run sha256 ts d)
  unfolding run
  run-append [] ts c = refl
  run-append (s ∷ ss) ts c = elim (Outcome-cases (step sha256 s c)) [
    | inl (c1, e) ↦ rw (e, run-append ss ts c1)
    | inr (f, e) ↦ rw e
  ]
