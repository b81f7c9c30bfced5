-- ===== src/Net/Client/Pending.antt =====
-- The invariant of the client of source/net/curl_client.cpp: what its map of tasks holds.
use ffnetwork.Common.{
  Bool, Option, none, ℕ, suc, ◌<◌, ◌≡◌, ◌≢◌, refl, sym, ap, ◌∙◌, true, false, ◌==◌, List, [], ◌∷◌,
  ◌++◌, some, Bool-cases, inl, inr, arith, All, All-map,
}
use ffnetwork.Common.Maps.{
  AllOf-insert_apart, lookup-erase_other, lookup-insert_other, number_key, bytes_key, lookup,
  insert, erase, lookup-erase, AllOf, same_bytes, bytes_refl, lookup-insert_self,
}
use ffnetwork.Net.Request.{Bytes}
use ffnetwork.Net.Task.{Task, Call}
use ffnetwork.Net.Client.{Client, Event, drop_old}

abbrev pub NotBy : ℕ → List Event → Type 0
NotBy id = All (λ e. e.task ≢ id)

-- No two events are of the same task.
abbrev pub Distinct : List Event → Type 0
Distinct [] = Unit
Distinct (e ∷ es) = NotBy e.task es × Distinct es

-- A task that the map holds under this hash: it is there, and has not called its callback.
pub record Pending (tasks : List (ℕ × Task)) (next : ℕ) (events : List Event) (h : Bytes) (id : ℕ)
    : Type 0 where
  pub task : Task
  pub there : lookup id tasks ≡ some task
  pub hashed : task.identifier ≡ h
  pub old : id < next
  pub silent : NotBy id events

pub record Inv (tasks : List (ℕ × Task)) (next : ℕ) (m : List (Bytes × ℕ)) (events : List Event)
    : Type 0 where
  pub pending : AllOf (Pending tasks next events) m
  pub past : All (λ e. e.task < next) events
  pub distinct : Distinct events

abbrev pub InvOf : Client → Type 0
InvOf c = Inv c.tasks c.next_task c.request_task_map c.events

All-snoc {ℓ κ} :
    {A : Type ℓ} (P : A → Type κ) (xs : List A) (x : A) → All P xs → P x → All P (xs ++ x ∷ [])
All-snoc P [] x h p = (p, tt)
All-snoc P (y ∷ ys) x h p = (h.0, All-snoc P ys x h.1 p)

Distinct-snoc :
    (es : List Event) (e : Event) → Distinct es → NotBy e.task es → Distinct (es ++ e ∷ [])
Distinct-snoc [] e d n = (tt, tt)
Distinct-snoc (f ∷ es) e d n =
    (All-snoc (λ g. g.task ≢ f.task) es e d.0 (λ same. n.0 (sym same)), Distinct-snoc es e d.1 n.1)

same_hash :
    (tasks : List (ℕ × Task)) {t u : Task} {h j : Bytes} (id other : ℕ)
    → lookup id tasks ≡ some t
    → lookup other tasks ≡ some u
    → t.identifier ≡ h
    → u.identifier ≡ j
    → id ≡ other
    → h ≡ j
same_hash tasks {t = t} {u = u} id other a b c d same =
    let both : t ≡ u = cc in sym c ∙ ap (λ t. t.identifier) both ∙ d

hashes_differ : (h j : Bytes) → same_bytes h j ≡ false → h ≢ j
hashes_differ h j miss same =
    let reflexive : same_bytes h j ≡ true = ap (same_bytes h) (sym same) ∙ bytes_refl h in cc

module _ (tasks : List (ℕ × Task)) (next : ℕ) (m : List (Bytes × ℕ)) (events : List Event)
    (inv : Inv tasks next m events) where
  -- The callback of the task under a hash is called, and the hash is removed.
  pub settle-Inv :
      (h : Bytes) (id : ℕ) (t : Task) (calls : List Call)
      → lookup h m ≡ some id
      → Inv
          (insert id t tasks)
          next
          (erase h m)
          (events ++ record { task = id; calls = calls } ∷ [])
  settle-Inv h id t calls at =
      let p = inv.pending h id at in
      record {
        pending = λ j other found. elim (Bool-cases (same_bytes h j)) [
          | inl hit ↦ absurd (ground (arith, lookup-erase h j m))
          | inr miss ↦
              let before : lookup j m ≡ some other = ground (arith, lookup-erase h j m) in
              let q = inv.pending j other before in
              let ne : id ≢ other = λ same.
                hashes_differ h j miss
                  (same_hash tasks id other p.there q.there p.hashed q.hashed same) in
              record {
                task = q.task;
                there = lookup-insert_other id other t tasks ne ∙ q.there;
                hashed = q.hashed;
                old = q.old;
                silent = All-snoc _ events _ q.silent ne;
              }
        ];
        past = All-snoc _ events _ inv.past p.old;
        distinct = Distinct-snoc events _ inv.distinct p.silent;
      }

  drop_old-there :
      (kept : Bool) (o : Option ℕ) (other : ℕ) (t : Task)
      → ((id : ℕ) → o ≡ some id → id ≢ other)
      → lookup other tasks ≡ some t
      → lookup other (drop_old kept o tasks) ≡ some t
  drop_old-there true none other t ne there = there
  drop_old-there false none other t ne there = there
  drop_old-there true (some id) other t ne there = there
  drop_old-there false (some id) other t ne there =
      lookup-erase_other id other tasks (ne id refl) ∙ there

  pub create-Inv :
      (h : Bytes) (t : Task) (kept : Bool)
      → t.identifier ≡ h
      → Inv (insert next t (drop_old kept (lookup h m) tasks)) (suc next) (insert h next m) events
  create-Inv h t kept e = record {
    pending =
        AllOf-insert_apart _ h next m
          (record {
            task = t;
            there = lookup-insert_self next t (drop_old kept (lookup h m) tasks);
            hashed = e;
            old = omega arith;
            silent =
                All-map (λ e. e.task < next) (λ e. e.task ≢ next) events
                  (λ e l s. omega (arith, l, s)) inv.past;
          })
          (λ j other miss found.
            let p = inv.pending j other found in
            record {
              task = p.task;
              there =
                  lookup-insert_other next other t (drop_old kept (lookup h m) tasks)
                    (λ s. omega (arith, s, p.old))
                  ∙ drop_old-there kept (lookup h m) other p.task
                      (λ id at same.
                        let q = inv.pending h id at in
                        hashes_differ h j miss
                          (same_hash tasks id other q.there p.there q.hashed p.hashed same))
                      p.there;
              hashed = p.hashed;
              old = omega (arith, p.old);
              silent = p.silent;
            });
    past =
        All-map (λ e. e.task < next) (λ e. e.task < suc next) events (λ e l. omega (arith, l))
          inv.past;
    distinct = inv.distinct;
  }

  -- A task object changes and keeps its hash.
  pub update-Inv :
      (id : ℕ) (t u : Task)
      → lookup id tasks ≡ some t
      → u.identifier ≡ t.identifier
      → Inv (insert id u tasks) next m events
  update-Inv id t u at e = record {
    pending = λ j other found.
        let p = inv.pending j other found in
        elim (Bool-cases (id == other)) [
          | inl hit ↦
              let same : id ≡ other = ground arith in
              record {
                task = u;
                there =
                    ap (λ i. lookup i (insert id u tasks)) (sym same)
                    ∙ lookup-insert_self id u tasks;
                hashed = e ∙ same_hash tasks id other at p.there refl p.hashed same;
                old = p.old;
                silent = p.silent;
              }
          | inr miss ↦
              let ne : id ≢ other = ground arith in
              record {
                task = p.task;
                there = lookup-insert_other id other u tasks ne ∙ p.there;
                hashed = p.hashed;
                old = p.old;
                silent = p.silent;
              }
        ];
    past = inv.past;
    distinct = inv.distinct;
  }
