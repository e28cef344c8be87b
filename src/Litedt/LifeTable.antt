-- ===== src/Litedt/LifeTable.antt =====
-- The creation and the release of a connection in src/litedt.c move every flow along.
use liteflow.Base.{
  ◌&&◌, ℕ, ◌-◌, ◌≤◌, ◌≡◌, arith, refl, ◌==◌, Bool, true, false, not, if◌then◌else◌, Bool-cases, inl,
  inr, Option, none, some, List, [], ◌∷◌, ◌++◌,
}
use liteflow.Config.{Transport}
use liteflow.Litedt.{
  Engine, Env, Run, ◌>>=◌, ◌>>◌, return, emit, when, lookup, remove, Conn, ConnState, Output,
  on_connect,
}
use liteflow.Litedt.Table.{
  is_known, new_conn, insert_connection, undo_connection, ask_and_insert, create_connection, retire,
  release_connection,
}
use liteflow.Base.Word.{u32_mod}
use liteflow.Litedt.{rank, request, established, fin_wait, close_wait, closed}
use liteflow.Litedt.{put, mod_conn, find_connection}
use liteflow.Litedt.Follow.{
  map_some, lookup-put, Status, passive, active, Follows, Follows-bind, Follows-then,
  Follows-return, Follows-gets, Follows-elim, Follows-modify, Ahead, Along, Outcome, later,
  Along-refl, status, status_of, unknown, waiting, live,
}
use liteflow.Litedt.Life.{litedt_mod_evtime-Follows}

bound : (a : Status) → (passive a ≤ 6) × (active a ≤ 6)
bound unknown = omega arith
bound waiting = omega arith
bound (live request) = omega arith
bound (live established) = omega arith
bound (live fin_wait) = omega arith
bound (live close_wait) = omega arith
bound (live closed) = omega arith

-- Everything may end, and anything may begin.
before_waiting : (a : Status) → Ahead a waiting
before_waiting a = record { passive_le = (bound a).0; active_le = (bound a).1 }

after_unknown : (a b : Status) → a ≡ unknown → Ahead a b
after_unknown a b e = rw e (record { passive_le = omega arith; active_le = omega arith })

same_status : (a : Status) → Ahead a a
same_status a = record { passive_le = omega arith; active_le = omega arith }

-- The flow enters the table.
unknown_before :
    (j flow : ℕ) (c : Conn) (o : Option Conn) (t : Option ℕ)
    → (j ≡ flow → status_of o t ≡ unknown)
    → Ahead (status_of o t) (status_of (if flow == j then some c else o) t)
unknown_before j flow c o t h = elim (Bool-cases (flow == j)) [
  | inl e ↦ rw (e, if◌then◌else◌) (after_unknown (status_of o t) (live c.state) (h (ground arith)))
  | inr e ↦ rw (e, if◌then◌else◌) (same_status (status_of o t))
]

known_unknown : (e : Engine) (flow : ℕ) → is_known e flow ≡ false → status e flow ≡ unknown
known_unknown e flow h = go (lookup flow e.conns) (lookup flow e.timewait) h
  where
    go :
        (o : Option Conn) (t : Option ℕ)
        → elim o [ some c ↦ true | none ↦ elim t [ some t ↦ true | none ↦ false ] ] ≡ false
        → status_of o t ≡ unknown
    go none none h = refl
    go none (some t) h = ground arith
    go (some c) t h = ground arith

insert-Outcome :
    (cfg : Transport) (env : Env) (flow tunnel_id : ℕ) (state : ConnState) (e : Engine)
    → is_known e flow ≡ false
    → Outcome e (insert_connection cfg env flow tunnel_id state e)
unfolding insert_connection ◌>>◌
insert-Outcome cfg env flow tunnel_id state e k =
    let c = new_conn cfg env.now tunnel_id state in
    let e' : Engine = record e { conns = (flow, c) ∷ e.conns } in
    later e e'
      (λ j.
        unknown_before j flow c (lookup j e.conns) (lookup j e.timewait)
          (λ q. rw q (known_unknown e flow k)))
      _
      ((Follows-then (litedt_mod_evtime-Follows env (some flow) env.now) (Follows-return 0)).run e')

lookup-remove :
    (k j : ℕ) (xs : List (ℕ × Conn))
    → lookup j (remove k xs) ≡ (if j == k then none else lookup j xs)
lookup-remove k j [] = ground arith
lookup-remove k j ((i, c) ∷ xs) = ground (arith, lookup-remove k j xs)

unknown_still :
    (j flow : ℕ) (c : Conn) (xs : List (ℕ × Conn)) (t : Option ℕ)
    → (j ≡ flow → status_of (lookup j xs) t ≡ unknown)
    → Ahead (status_of (lookup j xs) t) (status_of (lookup j (remove flow ((flow, c) ∷ xs))) t)
unknown_still j flow c xs t h =
    rw (lookup-remove flow j ((flow, c) ∷ xs)) (elim (Bool-cases (j == flow)) [
      | inl e ↦
          rw (e, if◌then◌else◌) (after_unknown (status_of (lookup j xs) t) _ (h (ground arith)))
      | inr e ↦ rw (e, if◌then◌else◌) (ground (arith, same_status (status_of (lookup j xs) t)))
    ])

undo-Outcome :
    (cfg : Transport) (env : Env) (flow tunnel_id : ℕ) (state : ConnState) (e : Engine)
    → is_known e flow ≡ false
    → Outcome e (undo_connection cfg env flow tunnel_id state e)
unfolding undo_connection ◌>>◌
undo-Outcome cfg env flow tunnel_id state e k = λ j.
    unknown_still j flow (new_conn cfg env.now tunnel_id state) e.conns (lookup j e.timewait)
      (λ q. rw q (known_unknown e flow k))

pub Outcome-if :
    {A : Type 0} (b : Bool) (e : Engine) (m n : Run A)
    → Outcome e (m e)
    → Outcome e (n e)
    → Outcome e ((if b then m else n) e)
Outcome-if true e m n p q = p
Outcome-if false e m n p q = q

after_emit :
    {A : Type 0} (b : Bool) (o : Output) (e : Engine) (k : Run A)
    → ((e' : Engine) → e'.conns ≡ e.conns → e'.timewait ≡ e.timewait → Outcome e' (k e'))
    → Outcome e ((when b (emit o) >> k) e)
unfolding ◌>>◌
after_emit true o e k h =
    let e' : Engine = record e { log = e.log ++ (o ∷ []) } in
    later e e' (Along-refl e) (k e') (h e' refl refl)
after_emit false o e k h = h e refl refl

ask_and_insert-Outcome :
    (cfg : Transport) (env : Env) (flow tunnel_id : ℕ) (state : ConnState) (e : Engine)
    → is_known e flow ≡ false
    → Outcome e (ask_and_insert cfg env flow tunnel_id state e)
unfolding ask_and_insert
ask_and_insert-Outcome cfg env flow tunnel_id state e k =
    let ret = if rank state == 1 then env.connect flow tunnel_id else 0 in
    let inserted = insert_connection cfg env flow tunnel_id state in
    let undone = undo_connection cfg env flow tunnel_id state in
    let no_fec = (new_conn cfg env.now tunnel_id state).fec_enabled && not env.fec_alloc in
    let made : Run ℕ = if no_fec then undone else inserted in
    let pushed : Run ℕ = if not env.alloc then return (u32_mod - 1) else made in
    after_emit (rank state == 1) (on_connect flow tunnel_id) e
      (if not (ret == 0) then return ret else pushed)
      (λ e' p q. Outcome-if (not (ret == 0)) e' (return ret) pushed (Along-refl e') (
        Outcome-if (not env.alloc) e' (return (u32_mod - 1)) made (Along-refl e') (
          Outcome-if no_fec e' undone inserted
            (undo-Outcome cfg env flow tunnel_id state e' (rw (p, q) k))
            (insert-Outcome cfg env flow tunnel_id state e' (rw (p, q) k)))))

pub create_connection-Follows :
    (cfg : Transport) (env : Env) (flow tunnel_id : ℕ) (state : ConnState)
    → Follows (create_connection cfg env flow tunnel_id state)
unfolding create_connection ◌>>=◌
create_connection-Follows cfg env flow tunnel_id state = record {
  run = λ e. elim (Bool-cases (is_known e flow)) [
    | inl k ↦ rw (k, if◌then◌else◌) (Along-refl e)
    | inr k ↦ rw (k, if◌then◌else◌) (ask_and_insert-Outcome cfg env flow tunnel_id state e k)
  ];
}

abbrev or_last : Option ℕ → Bool → ℕ → Option ℕ
or_last none b t = if b then some t else none
or_last (some t') b t = some t'

lookup-append :
    (k j t : ℕ) (xs : List (ℕ × ℕ))
    → lookup j (xs ++ ((k, t) ∷ [])) ≡ or_last (lookup j xs) (j == k) t
lookup-append k j t [] = ground arith
lookup-append k j t ((i, c) ∷ xs) = ground (arith, lookup-append k j t xs)

retired :
    (b : Bool) (o : Option Conn) (w : Option ℕ) (t : ℕ)
    → Ahead (status_of o w) (status_of (if b then none else o) (or_last w b t))
retired true o none t = before_waiting (status_of o none)
retired true o (some w) t = before_waiting (status_of o (some w))
retired false o none t = record { passive_le = omega arith; active_le = omega arith }
retired false o (some w) t = record { passive_le = omega arith; active_le = omega arith }

retire-Along :
    (env : Env) (k : env.timewait_alloc ≡ true) (flow : ℕ) (c : Conn) (e : Engine)
    → Along e (retire env flow c e)
unfolding retire
retire-Along env k flow c e = λ j.
    rw (k, if◌then◌else◌, lookup-remove flow j e.conns, lookup-append flow j env.now e.timewait)
      (retired (j == flow) (lookup j e.conns) (lookup j e.timewait) env.now)

pub release_connection-Follows :
    (env : Env) (k : env.timewait_alloc ≡ true) (flow : ℕ) → Follows (release_connection env flow)
unfolding release_connection
release_connection-Follows env k flow = Follows-bind (Follows-gets _) (λ o.
    Follows-elim o (Follows-return _) (λ c.
      Follows-then (Follows-modify _ (λ e. refl) (λ e. refl))
        (record { run = λ e. retire-Along env k flow c e })))

-- A write to the connection that the table holds, and what follows.
put_at :
    (b : Bool) (g : Conn → Conn) (o : Option Conn) (t : Option ℕ) (c : Conn)
    → (b ≡ true → o ≡ some c)
    → Ahead (live c.state) (live (g c).state)
    → Ahead (status_of o t) (status_of (if b then map_some g o else o) t)
put_at true g o t c h a = rw (h refl) a
put_at false g o t c h a = same_status (status_of o t)

pub mod_then :
    {A : Type 0} (e : Engine) (flow : ℕ) (g : Conn → Conn) (c : Conn) (n : Run A)
    → lookup flow e.conns ≡ some c
    → Ahead (live c.state) (live (g c).state)
    → Follows n
    → Outcome e ((mod_conn flow g >> n) e)
unfolding ◌>>◌
mod_then e flow g c n l a p =
    let e' : Engine = record e { conns = put flow g e.conns } in
    later e e'
      (λ j. rw (lookup-put flow g j e.conns) (
        put_at (j == flow) g (lookup j e.conns) (lookup j e.timewait) c (λ q. rw (==_eq j flow q) l)
          a))
      (n e') (p.run e')
  where
    ==_eq : (a b : ℕ) → (a == b) ≡ true → a ≡ b
    ==_eq a b h = ground arith

-- The handlers look their connection up first.
pub Follows-find :
    {A : Type 0} (flow : ℕ) (f : Option Conn → Run A)
    → ((e : Engine) → Outcome e (f none e))
    → ((e : Engine) (c : Conn) → lookup flow e.conns ≡ some c → Outcome e (f (some c) e))
    → Follows (find_connection flow >>= f)
unfolding ◌>>=◌
Follows-find flow f p q = record { run = λ e. go e (lookup flow e.conns) refl }
  where
    go : (e : Engine) (o : Option Conn) → lookup flow e.conns ≡ o → Outcome e (f o e)
    go e none h = p e
    go e (some c) h = q e c h
