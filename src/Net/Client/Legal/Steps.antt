-- ===== src/Net/Client/Legal/Steps.antt =====
-- The steps of source/net/curl_client.cpp return, and libcurl's handles stay with tasks of the map.
use mathlib.Core.Path.{subst}
use ffnetwork.Common.{
  refl, suc, false, Bool, ℕ, ◌<◌, ◌≡◌, sym, ap, ◌∙◌, true, ◌==◌, Bool-cases, List, [], ◌∷◌, ◌++◌,
  Option, none, some, Option-cases, inl, inr, Outcome, ok, arith,
}
use ffnetwork.Common.Maps.{
  number_other, lookup-insert_other, number_key, bytes_key, lookup, insert, lookup-insert,
  number_sound,
}
use ffnetwork.Net.Request.{Bytes, Request, hash}
use ffnetwork.Net.Task.{Task, new_task, Call, did_finished, did_cancelled, on_receive_header}
use ffnetwork.Net.Client.{
  CurlCode, do_start_request, do_cancel_request, handle_done, header_callback, task_with_request,
  drop_old, request_task_start, request_task_cancel, Posted, start_request, cancel_request, post,
  cleanup_request, tell, settle, Client, add_handle, remove_handle,
}
use ffnetwork.Net.Client.Access.{task_at-eq}
use ffnetwork.Net.Client.Once.{on_receive_header-identifier}
use ffnetwork.Net.Client.Delivery.{handle_done-eq}
use ffnetwork.Net.Client.Pending.{InvOf}
use ffnetwork.Net.Client.Legal.{
  in_multi, Driven, in_multi-remove, in_multi-add, erase-other, insert-other,
}

-- A step that returned in a driven client.
abbrev pub Returns : Outcome Client → Type 0
Returns o = (c' : Client) × (o ≡ ok c') × Driven c'

module _ (c : Client) (inv : InvOf c) (d : Driven c) where
  -- A task whose callback is called and whose hash and handle are dropped.
  pub drop-Driven :
      (h : Bytes) (id : ℕ) (t : Task) (calls : List Call)
      → lookup h c.request_task_map ≡ some id
      → Driven (cleanup_request h (tell (remove_handle id) (settle id (t, calls) c)))
  unfolding cleanup_request tell settle
  drop-Driven h id t calls at = record {
    made = λ j less. elim (Bool-cases (id == j)) [
      | inl hit ↦ (t, ground (arith, lookup-insert id j t c.tasks))
      | inr miss ↦
          let (u, there) = d.made j less in (u, ground (arith, lookup-insert id j t c.tasks))
    ];
    held = λ j inside.
        let (ne, before) = in_multi-remove id j c.curl_calls inside in
        let k = d.held j before in
        record {
          task = k.task;
          there = lookup-insert_other id j t c.tasks ne ∙ k.there;
          in_map = erase-other h k.task.identifier id j c.request_task_map at k.in_map ne;
        };
  }

  pub start-Returns : (h : Bytes) → Returns (do_start_request h c)
  unfolding do_start_request tell
  start-Returns h = elim (Option-cases (lookup h c.request_task_map)) [
    | inl free ↦ (c, rw (free, do_start_request), d)
    | inr (id, at) ↦
        let p = inv.pending h id at in
        (
          tell (add_handle id) c,
          rw (at, task_at-eq c id p.task p.there, do_start_request),
          record {
            made = d.made;
            held = λ j inside. elim (Bool-cases (id == j)) [
              | inl hit ↦
                  let same : id ≡ j = number_sound id j hit in
                  record {
                    task = p.task;
                    there = ap (λ i. lookup i c.tasks) (sym same) ∙ p.there;
                    in_map = ap (λ g. lookup g c.request_task_map) p.hashed ∙ at ∙ ap some same;
                  }
              | inr miss ↦
                  let k = d.held j (in_multi-add id j c.curl_calls inside miss) in
                  record { task = k.task; there = k.there; in_map = k.in_map }
            ];
          },
        )
  ]

  pub cancel-Returns : (h : Bytes) → Returns (do_cancel_request h c)
  unfolding do_cancel_request cleanup_request tell settle did_cancelled
  cancel-Returns h = elim (Option-cases (lookup h c.request_task_map)) [
    | inl free ↦ (c, rw (free, do_cancel_request), d)
    | inr (id, at) ↦
        let p = inv.pending h id at in
        (
          cleanup_request h (tell (remove_handle id) (settle id (did_cancelled p.task) c)),
          rw (at, task_at-eq c id p.task p.there, do_cancel_request),
          drop-Driven h id _ _ at,
        )
  ]

  pub done-Returns :
      (handle status : ℕ) (result : CurlCode)
      → in_multi handle c.curl_calls ≡ true
      → Returns (handle_done handle status result c)
  unfolding did_finished
  done-Returns handle status result inside =
      let k = d.held handle inside in
      (
        _,
        handle_done-eq c handle handle status result k.task k.task k.there k.in_map k.there,
        drop-Driven k.task.identifier handle _ _ k.in_map,
      )

  pub header-Returns :
      (id : ℕ) (line : Bytes)
      → in_multi id c.curl_calls ≡ true
      → Returns (header_callback id line c)
  unfolding header_callback
  header-Returns id line inside =
      let k = d.held id inside in
      let t = on_receive_header line k.task in
      let same : t.identifier ≡ k.task.identifier = on_receive_header-identifier line k.task in
      (
        record c { tasks = insert id t c.tasks },
        rw (task_at-eq c id k.task k.there, header_callback),
        record {
          made = λ j less. elim (Bool-cases (id == j)) [
            | inl hit ↦ (t, ground (arith, lookup-insert id j t c.tasks))
            | inr miss ↦
                let (u, there) = d.made j less in (u, ground (arith, lookup-insert id j t c.tasks))
          ];
          held = λ j in_j. elim (Bool-cases (id == j)) [
            | inl hit ↦ record {
              task = t;
              there = ground (arith, lookup-insert id j t c.tasks);
              in_map =
                  ap (λ g. lookup g c.request_task_map) same
                  ∙ k.in_map
                  ∙ ap some (number_sound id j hit);
            }
            | inr miss ↦
                let l = d.held j in_j in
                record {
                  task = l.task;
                  there = lookup-insert_other id j t c.tasks (ground arith) ∙ l.there;
                  in_map = l.in_map;
                }
          ];
        },
      )

  pub posted-Driven : (ps : List Posted) → Driven (record c { posted = ps })
  posted-Driven ps = record {
    made = d.made;
    held = λ j inside.
        let k = d.held j inside in record { task = k.task; there = k.there; in_map = k.in_map };
  }

  pub posts-Returns :
      (id : ℕ)
      → id < c.next_task
      → Returns (request_task_start id c) × Returns (request_task_cancel id c)
  unfolding request_task_start request_task_cancel post
  posts-Returns id less =
      let (t, there) = d.made id less in
      (
        (
          post (start_request t.identifier) c,
          rw (task_at-eq c id t there, request_task_start),
          posted-Driven (c.posted ++ start_request t.identifier ∷ []),
        ),
        (
          post (cancel_request t.identifier) c,
          rw (task_at-eq c id t there, request_task_cancel),
          posted-Driven (c.posted ++ cancel_request t.identifier ∷ []),
        ),
      )

  drop_old-none : (kept : Bool) (ts : List (ℕ × Task)) → drop_old kept none ts ≡ ts
  drop_old-none true ts = refl
  drop_old-none false ts = refl

  pub create-Returns :
      (sha256 : Bytes → Bytes) (r : Request) (k : Option ℕ) (kept : Bool)
      → lookup (hash sha256 r) c.request_task_map ≡ none
      → Driven (task_with_request sha256 r k kept c).0
  unfolding task_with_request
  create-Returns sha256 r k kept free =
      let h = hash sha256 r in
      let t = record (new_task r h) { completion_callback = k } in
      let all : c.tasks ≡ drop_old kept (lookup h c.request_task_map) c.tasks =
        sym (ap (λ o. drop_old kept o c.tasks) free ∙ drop_old-none kept c.tasks) in
      subst
        (λ ts. Driven (record c {
          tasks = insert c.next_task t ts;
          next_task = suc c.next_task;
          request_task_map = insert h c.next_task c.request_task_map;
        }))
        all
        record {
          made = λ j less. elim (Bool-cases (c.next_task == j)) [
            | inl hit ↦ (t, ground (arith, lookup-insert c.next_task j t c.tasks))
            | inr miss ↦
                let (u, there) = d.made j (omega (arith, less, number_other c.next_task j miss)) in
                (u, ground (arith, lookup-insert c.next_task j t c.tasks))
          ];
          held = λ j inside.
              let l = d.held j inside in
              let old = (inv.pending l.task.identifier j l.in_map).old in
              record {
                task = l.task;
                there =
                    lookup-insert_other c.next_task j t c.tasks (λ e. omega (arith, e, old))
                    ∙ l.there;
                in_map =
                    insert-other h l.task.identifier c.next_task j c.request_task_map free l.in_map;
              };
        }
