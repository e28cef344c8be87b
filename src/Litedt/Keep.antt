-- ===== src/Litedt/Keep.antt =====
-- Time passes for a host, litedt_time_event of src/litedt.c: what happens to a flow in the table.
use liteflow.Base.{
  ℕ, ◌≡◌, refl, ◌∙◌, Bool, true, false, if◌then◌else◌, Option, none, some, List, [], ◌∷◌,
}
use mathlib.Core.Path.{subst}
use liteflow.Config.{Transport}
use liteflow.Messages.{Body}
use liteflow.Litedt.{Engine, Env, Run, ◌>>=◌, ◌>>◌, return, gets, modify, when, lookup, Conn}
use liteflow.Litedt.Send.{socket_send, spend, litedt_ping_req}
use liteflow.Litedt.Table.{release_while, release_all_connections}
use liteflow.Litedt.Event.{ping_if_due, go_offline, litedt_time_event}
use liteflow.Litedt.Follow.{
  Follows, Follows-then, Follows-return, Outcome, Ahead, status, status_of, live,
}
use liteflow.Litedt.Life.{follow}
use liteflow.Litedt.LifeTable.{release_connection-Follows}
use liteflow.Litedt.LifeQueue.{run_connections-Follows}

abbrev Kept : {A : Type 0} → Engine → Option (Engine × A) → Type 0
Kept e none = Unit
Kept e (some (e', a)) = e'.conns ≡ e.conns

-- The computation leaves the table as it is.
record Keeps {A : Type 0} (m : Run A) : Type 0 where
  run : (e : Engine) → Kept e (m e)

Kept-after :
    {A B : Type 0} (e : Engine) (o : Option (Engine × A)) (f : A → Run B)
    → Kept e o
    → ((a : A) → Keeps (f a))
    → Kept e (elim o [ none ↦ none | some (e', a) ↦ f a e' ])
Kept-after {B = B} e none f h k = tt
Kept-after {B = B} e (some (e', a)) f h k = go (f a e') ((k a).run e')
  where
    go : (o : Option (Engine × B)) → Kept e' o → Kept e o
    go none p = tt
    go (some (e'', b)) p = p ∙ h

Keeps-bind :
    {A B : Type 0} {m : Run A} {f : A → Run B} → Keeps m → ((a : A) → Keeps (f a)) → Keeps (m >>= f)
unfolding ◌>>=◌
Keeps-bind {m = m} {f = f} p q = record { run = λ e. Kept-after e (m e) f (p.run e) q }

Keeps-then : {A B : Type 0} {m : Run A} {n : Run B} → Keeps m → Keeps n → Keeps (m >> n)
unfolding ◌>>◌
Keeps-then {m = m} {n = n} p q = record {
  run = λ e. Kept-after e (m e) (λ a. n) (p.run e) (λ a. q);
}

Keeps-return : {A : Type 0} (a : A) → Keeps (return a)
Keeps-return a = record { run = λ e. refl }

Keeps-gets : {A : Type 0} (f : Engine → A) → Keeps (gets f)
Keeps-gets f = record { run = λ e. refl }

Keeps-when : (b : Bool) {m : Run Unit} → Keeps m → Keeps (when b m)
Keeps-when true p = p
Keeps-when false p = Keeps-return tt

Keeps-if : {A : Type 0} (b : Bool) {m n : Run A} → Keeps m → Keeps n → Keeps (if b then m else n)
Keeps-if true p q = p
Keeps-if false p q = q

Keeps-modify : (f : Engine → Engine) → ((e : Engine) → (f e).conns ≡ e.conns) → Keeps (modify f)
Keeps-modify f h = record { run = h }

ruleset keep =
    (Keeps-bind, Keeps-then, Keeps-return, Keeps-gets, Keeps-when, Keeps-if, Keeps-modify)

socket_send-Keeps :
    (env : Env) (flow : ℕ) (body : Body) (force : Bool) → Keeps (socket_send env flow body force)
unfolding socket_send spend
socket_send-Keeps env flow body force = search keep depth 9

litedt_ping_req-Keeps : (env : Env) → Keeps (litedt_ping_req env)
unfolding litedt_ping_req
litedt_ping_req-Keeps env = search (keep, socket_send-Keeps) depth 12

ping_if_due-Keeps : (env : Env) (cur_time : ℕ) → Keeps (ping_if_due env cur_time)
unfolding ping_if_due
ping_if_due-Keeps env cur_time = search (keep, litedt_ping_req-Keeps) depth 12

release_while-Follows :
    (env : Env) (k : env.timewait_alloc ≡ true) (conns : List (ℕ × Conn))
    → Follows (release_while env conns)
unfolding release_while
release_while-Follows env k [] = Follows-return tt
release_while-Follows env k ((flow, c) ∷ rest) =
    Follows-then (release_connection-Follows env k flow) (release_while-Follows env k rest)

go_offline-Follows :
    (cfg : Transport) (env : Env) (k : env.timewait_alloc ≡ true) (cur_time : ℕ)
    → Follows (go_offline cfg env cur_time)
unfolding go_offline release_all_connections
go_offline-Follows cfg env k cur_time = search (follow, release_while-Follows) depth 12

-- Where the computation ends, the flow has moved along from the state of `c`.
abbrev Moved : {A : Type 0} → ℕ → Conn → Option (Engine × A) → Type 0
Moved flow c none = Unit
Moved flow c (some (e', a)) = Ahead (live c.state) (status e' flow)

-- The flow is in the table, and the computation moves it along.
record Moves {A : Type 0} (flow : ℕ) (c : Conn) (m : Run A) : Type 0 where
  run : (e : Engine) → lookup flow e.conns ≡ some c → Moved flow c (m e)

Moved-after :
    {A B : Type 0} (flow : ℕ) (c : Conn) (e : Engine) (o : Option (Engine × A)) (f : A → Run B)
    → lookup flow e.conns ≡ some c
    → Kept e o
    → ((a : A) → Moves flow c (f a))
    → Moved flow c (elim o [ none ↦ none | some (e', a) ↦ f a e' ])
Moved-after flow c e none f l h k = tt
Moved-after flow c e (some (e', a)) f l h k = (k a).run e' (rw h l)

Moves-bind :
    {A B : Type 0} (flow : ℕ) (c : Conn) {m : Run A} {f : A → Run B}
    → Keeps m
    → ((a : A) → Moves flow c (f a))
    → Moves flow c (m >>= f)
unfolding ◌>>=◌
Moves-bind flow c {m = m} {f = f} p q = record {
  run = λ e l. Moved-after flow c e (m e) f l (p.run e) q;
}

Moves-then :
    {A B : Type 0} (flow : ℕ) (c : Conn) {m : Run A} {n : Run B}
    → Keeps m
    → Moves flow c n
    → Moves flow c (m >> n)
unfolding ◌>>◌
Moves-then flow c {m = m} {n = n} p q = record {
  run = λ e l. Moved-after flow c e (m e) (λ a. n) l (p.run e) (λ a. q);
}

Moves-if :
    {A : Type 0} (flow : ℕ) (c : Conn) (b : Bool) {m n : Run A}
    → Moves flow c m
    → Moves flow c n
    → Moves flow c (if b then m else n)
Moves-if flow c true p q = p
Moves-if flow c false p q = q

from_state :
    {A : Type 0} (flow : ℕ) (c : Conn) (e : Engine) (o : Option (Engine × A))
    → lookup flow e.conns ≡ some c
    → Outcome e o
    → Moved flow c o
from_state flow c e none l p = tt
from_state flow c e (some (e', a)) l p =
    subst (λ o. Ahead (status_of o (lookup flow e.timewait)) (status e' flow)) l (p flow)

Follows-Moves : {A : Type 0} (flow : ℕ) (c : Conn) {m : Run A} → Follows m → Moves flow c m
Follows-Moves flow c {m = m} p = record { run = λ e l. from_state flow c e (m e) l (p.run e) }

litedt_time_event-Moves :
    (cfg : Transport) (env : Env) (k : env.timewait_alloc ≡ true) (flow : ℕ) (c : Conn)
    → Moves flow c (litedt_time_event cfg env)
unfolding litedt_time_event
litedt_time_event-Moves cfg env k flow c = Moves-then flow c (Keeps-modify _ (λ e. refl)) (
    Moves-bind flow c (Keeps-gets _) (λ e.
      Moves-if flow c e.is_closed (Follows-Moves flow c (Follows-return _)) (
        Moves-then flow c (ping_if_due-Keeps env _) (
          Moves-then flow c (Keeps-modify _ (λ e. refl)) (
            Follows-Moves flow c
              (search (follow, go_offline-Follows, run_connections-Follows) depth 12))))))

result-Moved :
    {A : Type 0} (flow : ℕ) (c : Conn) (e' : Engine) (a : A) (o : Option (Engine × A))
    → Moved flow c o
    → o ≡ some (e', a)
    → Ahead (live c.state) (status e' flow)
result-Moved flow c e' a o p q = subst (Moved flow c) q p

-- Whatever the parameters give but that queue_append of a time-wait record works, where
-- litedt_time_event ends without a fault a flow that was in the table has moved along or stayed: the
-- time-outs, the retries, the sending of data and the loss of the peer never take a connection back in
-- its states, nor make the host forget it before TIME_WAIT.
pub litedt_time_event-Ahead :
    (cfg : Transport) (env : Env) (e e' : Engine) (wait : Option ℕ) (flow : ℕ) (c : Conn)
    → env.timewait_alloc ≡ true
    → litedt_time_event cfg env e ≡ some (e', wait)
    → lookup flow e.conns ≡ some c
    → Ahead (live c.state) (status e' flow)
litedt_time_event-Ahead cfg env e e' wait flow c k h l =
    result-Moved flow c e' wait (litedt_time_event cfg env e)
      ((litedt_time_event-Moves cfg env k flow c).run e l) h
