-- ===== src/Net/Client/Access.antt =====
-- Lookups of tasks in source/net/curl_client.cpp.
use ffnetwork.Common.{ℕ, ◌≡◌, none, some, null_deref, ok, err}
use ffnetwork.Common.Maps.{number_key, bytes_key, lookup}
use ffnetwork.Net.Request.{Bytes}
use ffnetwork.Net.Task.{Task}
use ffnetwork.Net.Client.{Client, task_at, mapped, do_start_request, tell, add_handle}

pub task_at-eq : (c : Client) (id : ℕ) (t : Task) → lookup id c.tasks ≡ some t → task_at c id ≡ ok t
unfolding task_at
task_at-eq c id t h = rw (h, task_at)

pub task_at-none : (c : Client) (id : ℕ) → lookup id c.tasks ≡ none → task_at c id ≡ err null_deref
unfolding task_at
task_at-none c id h = rw (h, task_at)

pub mapped-eq :
    (c : Client) (h : Bytes) (id : ℕ) → lookup h c.request_task_map ≡ some id → mapped c h ≡ ok id
unfolding mapped
mapped-eq c h id e = rw (e, mapped)

pub mapped-none :
    (c : Client) (h : Bytes) → lookup h c.request_task_map ≡ none → mapped c h ≡ err null_deref
unfolding mapped
mapped-none c h e = rw (e, mapped)

pub do_start_request-eq :
    (c : Client) (h : Bytes) (id : ℕ) (t : Task)
    → lookup h c.request_task_map ≡ some id
    → lookup id c.tasks ≡ some t
    → do_start_request h c ≡ ok (tell (add_handle id) c)
unfolding do_start_request
do_start_request-eq c h id t held there = rw (held, task_at-eq c id t there, do_start_request)
