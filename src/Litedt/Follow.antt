-- ===== src/Litedt/Follow.antt =====
-- How the connections of src/litedt.c move along their states: the order, and the rules by which a
-- computation follows it.
use liteflow.Base.{
  ℕ, ◌≤◌, ◌≡◌, arith, ◌==◌, Bool, true, false, if◌then◌else◌, Option, none, some, List, [], ◌∷◌,
}
use liteflow.Litedt.{
  Engine, Run, ◌>>=◌, ◌>>◌, return, gets, lift, modify, when, lookup, put, Conn, ConnState, request,
  established, fin_wait, close_wait, closed, mod_conn,
}

-- What a host knows of a flow: nothing, the state of its connection, or that it was closed lately.
pub data Status : Type 0 where
  unknown waiting : Status
  live : ConnState → Status

abbrev pub status_of : Option Conn → Option ℕ → Status
status_of (some c) t = live c.state
status_of none none = unknown
status_of none (some t) = waiting

abbrev pub status : Engine → ℕ → Status
status e flow = status_of (lookup flow e.conns) (lookup flow e.timewait)

-- Two rankings whose common order is the one of the states: CLOSE_WAIT and CLOSED are not before or
-- after FIN_WAIT.
abbrev pub passive : Status → ℕ
passive unknown = 0
passive (live request) = 1
passive (live established) = 2
passive (live fin_wait) = 3
passive (live close_wait) = 4
passive (live closed) = 5
passive waiting = 6

abbrev pub active : Status → ℕ
active unknown = 0
active (live request) = 1
active (live established) = 2
active (live close_wait) = 3
active (live closed) = 4
active (live fin_wait) = 5
active waiting = 6

-- b may come after a, or is a.
pub record Ahead (a b : Status) : Type 0 where
  pub passive_le : passive a ≤ passive b
  pub active_le : active a ≤ active b

-- Every flow has moved along, or has not moved.
abbrev pub Along : Engine → Engine → Type 0
Along e e' = (flow : ℕ) → Ahead (status e flow) (status e' flow)

abbrev pub Outcome : {A : Type 0} → Engine → Option (Engine × A) → Type 0
Outcome e none = Unit
Outcome e (some (e', a)) = Along e e'

-- Whatever the computation does, it moves every flow along.
pub record Follows {A : Type 0} (m : Run A) : Type 0 where
  pub run : (e : Engine) → Outcome e (m e)

pub Along-trans : (e e' e'' : Engine) → Along e e' → Along e' e'' → Along e e''
Along-trans e e' e'' p q = λ flow. record {
  passive_le = omega (arith, (p flow).passive_le, (q flow).passive_le);
  active_le = omega (arith, (p flow).active_le, (q flow).active_le);
}

pub Along-refl : (e : Engine) → Along e e
Along-refl e = λ flow. record { passive_le = omega arith; active_le = omega arith }

pub later :
    {B : Type 0} (e e' : Engine)
    → Along e e'
    → (o : Option (Engine × B)) → Outcome e' o
    → Outcome e o
later e e' h none k = tt
later e e' h (some (e'', b)) k = Along-trans e e' e'' h k

pub then-Outcome :
    {A B : Type 0} (e : Engine) (o : Option (Engine × A)) (f : A → Run B)
    → Outcome e o
    → ((a : A) → Follows (f a))
    → Outcome e (elim o [ none ↦ none | some (e', a) ↦ f a e' ])
then-Outcome e none f h q = tt
then-Outcome e (some (e', a)) f h q = later e e' h (f a e') ((q a).run e')

pub Follows-bind :
    {A B : Type 0} {m : Run A} {f : A → Run B}
    → Follows m
    → ((a : A) → Follows (f a))
    → Follows (m >>= f)
unfolding ◌>>=◌
Follows-bind {m = m} {f = f} p q = record { run = λ e. then-Outcome e (m e) f (p.run e) q }

pub Follows-then : {A B : Type 0} {m : Run A} {n : Run B} → Follows m → Follows n → Follows (m >> n)
unfolding ◌>>◌
Follows-then {m = m} {n = n} p q = record {
  run = λ e. then-Outcome e (m e) (λ a. n) (p.run e) (λ a. q);
}

pub Follows-return : {A : Type 0} (a : A) → Follows (return a)
Follows-return a = record { run = λ e. Along-refl e }

pub Follows-gets : {A : Type 0} (f : Engine → A) → Follows (gets f)
Follows-gets f = record { run = λ e. Along-refl e }

pub Follows-lift : {A : Type 0} (o : Option A) → Follows (lift o)
Follows-lift none = record { run = λ e. tt }
Follows-lift (some a) = record { run = λ e. Along-refl e }

pub Follows-when : (b : Bool) {m : Run Unit} → Follows m → Follows (when b m)
Follows-when true p = p
Follows-when false p = Follows-return tt

pub Follows-if :
    {A : Type 0} (b : Bool) {m n : Run A} → Follows m → Follows n → Follows (if b then m else n)
Follows-if true p q = p
Follows-if false p q = q

pub Follows-elim :
    {A B : Type 0} (o : Option A) {m : Run B} {f : A → Run B}
    → Follows m
    → ((a : A) → Follows (f a))
    → Follows (elim o [ none ↦ m | some a ↦ f a ])
Follows-elim none p q = p
Follows-elim (some a) p q = q a

-- A change that leaves the table and the closed flows as they are.
pub Follows-modify :
    (f : Engine → Engine)
    → ((e : Engine) → (f e).conns ≡ e.conns)
    → ((e : Engine) → (f e).timewait ≡ e.timewait)
    → Follows (modify f)
Follows-modify f c t = record { run = λ e flow. rw (c e, t e) (Along-refl e flow) }

abbrev pub map_some : (Conn → Conn) → Option Conn → Option Conn
map_some f none = none
map_some f (some c) = some (f c)

pub lookup-put :
    (k : ℕ) (f : Conn → Conn) (j : ℕ) (xs : List (ℕ × Conn))
    → lookup j (put k f xs) ≡ (if j == k then map_some f (lookup j xs) else lookup j xs)
lookup-put k f j [] = ground arith
lookup-put k f j ((i, c) ∷ xs) = ground (arith, lookup-put k f j xs)

Ahead-refl : (a : Status) → Ahead a a
Ahead-refl a = record { passive_le = omega arith; active_le = omega arith }

status_put :
    (b : Bool) (f : Conn → Conn) (o : Option Conn) (t : Option ℕ)
    → ((c : Conn) → Ahead (live c.state) (live (f c).state))
    → Ahead (status_of o t) (status_of (if b then map_some f o else o) t)
status_put true f none t h = Ahead-refl (status_of none t)
status_put true f (some c) t h = h c
status_put false f o t h = Ahead-refl (status_of o t)

-- A write to a connection that moves its state along.
pub Follows-mod_conn :
    (flow : ℕ) (f : Conn → Conn)
    → ((c : Conn) → Ahead (live c.state) (live (f c).state))
    → Follows (mod_conn flow f)
Follows-mod_conn flow f h = record {
  run = λ e j.
      rw (lookup-put flow f j e.conns)
        (status_put (j == flow) f (lookup j e.conns) (lookup j e.timewait) h);
}

-- A write to a connection that keeps its state.
pub Follows-mod_conn_same :
    (flow : ℕ) (f : Conn → Conn) → ((c : Conn) → (f c).state ≡ c.state) → Follows (mod_conn flow f)
Follows-mod_conn_same flow f h = Follows-mod_conn flow f (λ c. rw (h c) (Ahead-refl (live c.state)))
