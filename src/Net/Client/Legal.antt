-- ===== src/Net/Client/Legal.antt =====
-- Histories of the client of source/net/curl_client.cpp in which no two live requests have one hash
-- and libcurl reports only handles that it has.
pub mod Steps
pub mod Returning
pub mod Ending
use mathlib.Core.Path.{subst}
use ffnetwork.Common.{
  ℕ, suc, ◌+◌, ◌<◌, ◌≡◌, ◌≢◌, refl, sym, ap, ◌∙◌, Bool, true, false, not, ◌&&◌, ◌==◌, ltb,
  if◌then◌else◌, Bool-cases, List, [], ◌∷◌, ◌++◌, Option, none, some, Option-cases, inl, inr,
  Outcome, Outcome-cases, ok, err, arith,
}
use ffnetwork.Common.Maps.{
  number_key, bytes_key, lookup, insert, erase, lookup-insert, lookup-erase, lookup-insert_self,
  same_bytes, bytes_sound, number_sound,
}
use ffnetwork.Net.Request.{Bytes, Request, hash}
use ffnetwork.Net.Task.{Task, new_task, Call, did_finished, did_cancelled, on_receive_header}
use ffnetwork.Net.Client.{
  CurlCode, do_start_request, do_cancel_request, handle_done, header_callback, task_with_request,
  request_task_start, request_task_cancel, run_next, run_posted, Posted, start_request,
  cancel_request, post, cleanup_request, tell, settle, Client, CurlCall, add_handle, remove_handle,
  Step, step, run, new_client, creates, disposes, starts, cancels, runs, receives, finishes,
}
use ffnetwork.Net.Client.Access.{task_at-eq, mapped-eq}
use ffnetwork.Net.Client.Once.{
  Keeps, step-Keeps, run-ok, new_client-InvOf, on_receive_header-identifier,
}
use ffnetwork.Net.Client.Delivery.{handle_done-eq}
use ffnetwork.Net.Client.Pending.{InvOf}

-- Whether libcurl has this handle after a call, and after calls.
abbrev pub after_call : ℕ → CurlCall → Bool → Bool
after_call id (add_handle i) b = if i == id then true else b
after_call id (remove_handle i) b = if i == id then false else b

abbrev pub after_calls : ℕ → List CurlCall → Bool → Bool
after_calls id [] b = b
after_calls id (c ∷ cs) b = after_calls id cs (after_call id c b)

abbrev pub in_multi : ℕ → List CurlCall → Bool
in_multi id cs = after_calls id cs false

abbrev pub is_free : Option ℕ → Bool
is_free none = true
is_free (some id) = false

-- A step that the users of the client and libcurl make: a request is made only while the map holds
-- none of its hash; only tasks that were made are started or cancelled; libcurl reports only on
-- handles that it has.
abbrev pub is_legal : (Bytes → Bytes) → Step → Client → Bool
is_legal sha256 (creates r k kept) c = is_free (lookup (hash sha256 r) c.request_task_map)
is_legal sha256 (starts id) c = ltb id c.next_task
is_legal sha256 (cancels id) c = ltb id c.next_task
is_legal sha256 runs c = true
is_legal sha256 disposes c = true
is_legal sha256 (receives id line) c = in_multi id c.curl_calls
is_legal sha256 (finishes id status result) c = in_multi id c.curl_calls

-- Every step of a history is legal where it is made; a step that fails ends the history.
unfoldable pub all_legal : (Bytes → Bytes) → List Step → Client → Bool
unfolding step
all_legal sha256 [] c = true
all_legal sha256 (s ∷ ss) c =
    is_legal sha256 s c && elim (step sha256 s c) [ ok c' ↦ all_legal sha256 ss c' | err f ↦ true ]

pub after_calls-append :
    (id : ℕ) (cs : List CurlCall) (d : CurlCall) (b : Bool)
    → after_calls id (cs ++ d ∷ []) b ≡ after_call id d (after_calls id cs b)
after_calls-append id [] d b = refl
after_calls-append id (c ∷ cs) d b = after_calls-append id cs d (after_call id c b)

pub in_multi-remove :
    (id j : ℕ) (cs : List CurlCall)
    → in_multi j (cs ++ remove_handle id ∷ []) ≡ true
    → (id ≢ j) × (in_multi j cs ≡ true)
in_multi-remove id j cs h =
    let last = sym (after_calls-append j cs (remove_handle id) false) ∙ h in
    (λ e. ground arith, ground arith)

pub in_multi-add :
    (id j : ℕ) (cs : List CurlCall)
    → in_multi j (cs ++ add_handle id ∷ []) ≡ true
    → (id == j) ≡ false
    → in_multi j cs ≡ true
in_multi-add id j cs h miss =
    let last = sym (after_calls-append j cs (add_handle id) false) ∙ h in ground arith

-- Another hash stays in the map.
pub erase-other :
    (h g : Bytes) (id j : ℕ) (m : List (Bytes × ℕ))
    → lookup h m ≡ some id
    → lookup g m ≡ some j
    → id ≢ j
    → lookup g (erase h m) ≡ some j
erase-other h g id j m a b ne = elim (Bool-cases (same_bytes h g)) [
  | inl hit ↦
      let same : lookup h m ≡ lookup g m = ap (λ k. lookup k m) (bytes_sound h g hit) in
      absurd (ne (ground arith))
  | inr miss ↦ ground (arith, lookup-erase h g m)
]

pub insert-other :
    (h g : Bytes) (id j : ℕ) (m : List (Bytes × ℕ))
    → lookup h m ≡ none
    → lookup g m ≡ some j
    → lookup g (insert h id m) ≡ some j
insert-other h g id j m free b = elim (Bool-cases (same_bytes h g)) [
  | inl hit ↦
      let same : lookup h m ≡ lookup g m = ap (λ k. lookup k m) (bytes_sound h g hit) in
      absurd (ground arith)
  | inr miss ↦ ground (arith, lookup-insert h g id m)
]

pub is_free-none : (o : Option ℕ) → is_free o ≡ true → o ≡ none
is_free-none o h = ground arith

pub ltb-less : (i j : ℕ) → ltb i j ≡ true → i < j
ltb-less i j h = ground arith

-- The task is there, and the map holds it under its hash.
pub record Held (c : Client) (id : ℕ) : Type 0 where
  pub task : Task
  pub there : lookup id c.tasks ≡ some task
  pub in_map : lookup task.identifier c.request_task_map ≡ some id

-- Every task that was made is there, and every handle that libcurl has is held.
pub record Driven (c : Client) : Type 0 where
  pub made : (id : ℕ) → id < c.next_task → (t : Task) × (lookup id c.tasks ≡ some t)
  pub held : (id : ℕ) → in_multi id c.curl_calls ≡ true → Held c id
