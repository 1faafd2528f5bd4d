-- ===== src/ALock/Group.antt =====
-- class ALockGroup: src/misc/alock.hpp and alock.cpp. The maps from a lock are lists in the order
-- of the locks' addresses. The callbacks that `lock_all` hands to the locks are the operations
-- `granted_one` and `refused_one`; the locks call them in some order, each once.
pub mod Granted
pub mod Answers
use s_rpc.Base.{
  ℕ, suc, Bool, true, false, not, ◌&&◌, ◌||◌, List, [], ◌∷◌, ◌++◌, ◌==◌, ltb, if◌then◌else◌, length,
  Option, none, some,
}
use s_rpc.Base.Int.{pos}
use s_rpc.Base.Outcome.{Outcome, done, fault, deleted, ◌>>=◌, ◌>>◌, verify}
use s_rpc.ALock.{LockType}
use s_rpc.DragonBall.{DragonBall, new_ball, trigger}

-- `ALockGroup::status_t`
pub data GroupStatus : Type 0 where
  g_init g_wait g_lock g_timeout g_unlock : GroupStatus

-- A call that the group makes: `lock` and `abort` of a lock, and its own two callbacks.
pub data GroupCall : Type 0 where
  lock_call : ℕ → LockType → GroupCall
  abort_call : ℕ → ℕ → GroupCall
  yes_call no_call : GroupCall

-- `status_`, `locked_`, `tolock_` and `db_`.
pub record Group : Type 0 where
  pub status : GroupStatus
  pub locked : List (ℕ × ℕ)
  pub tolock : List (ℕ × LockType)
  pub ball : Option DragonBall

-- `ALockGroup(priority, wound_callback)`
abbrev pub new_group : Group
new_group = record { status = g_init; locked = []; tolock = []; ball = none }

abbrev code : GroupStatus → ℕ
code g_init = 0
code g_wait = 1
code g_lock = 2
code g_timeout = 3
code g_unlock = 4

abbrev pub has_status : GroupStatus → Group → Bool
has_status c g = code g.status == code c

-- `cas_status(c, s)`
abbrev pub cas_status : GroupStatus → GroupStatus → Group → Group × Bool
cas_status c s g = if has_status c g then (record g { status = s }, true) else (g, false)

-- `map[key] = value`
unfoldable pub insert {ℓ} : {V : Type ℓ} → ℕ → V → List (ℕ × V) → List (ℕ × V)
insert k v [] = (k, v) ∷ []
insert k v (e ∷ m) =
    let later = insert k v m in
    if k == e.0 then (k, v) ∷ m else if ltb k e.0 then (k, v) ∷ e ∷ m else e ∷ later

-- `map.erase(key)`
unfoldable pub erase {ℓ} : {V : Type ℓ} → ℕ → List (ℕ × V) → List (ℕ × V)
erase k [] = []
erase k (e ∷ m) = let later = erase k m in if k == e.0 then m else e ∷ later

-- `add(alock, type)`
unfoldable pub add : ℕ → LockType → Group → Outcome Group
unfolding insert
add alock type g = do
  verify (has_status g_init g || has_status g_lock g)
  done (record g { tolock = insert alock type g.tolock })

-- `abort_all_locked()`
unfoldable pub abort_all_locked : List (ℕ × ℕ) → List GroupCall
abort_all_locked [] = []
abort_all_locked (e ∷ m) =
    let rest = abort_all_locked m in if e.1 == 0 then rest else abort_call e.0 e.1 ∷ rest

-- `abort_all()`, and `unlock_all()`, which does the same.
unfoldable pub abort_all : Group → Outcome (Group × List GroupCall)
unfolding abort_all_locked
abort_all g = do
  let (g', held) = cas_status g_lock g_unlock g
  verify held
  done (g', abort_all_locked g'.locked)

unfoldable pub unlock_all : Group → Outcome (Group × List GroupCall)
unfolding abort_all_locked
unlock_all g = do
  let (g', held) = cas_status g_lock g_unlock g
  verify held
  done (g', abort_all_locked g'.locked)

abbrev lock_calls : List (ℕ × LockType) → List GroupCall
lock_calls [] = []
lock_calls (e ∷ m) = lock_call e.0 e.1 ∷ lock_calls m

-- `lock_all(yes_cb, no_cb)`
unfoldable pub lock_all : Group → Outcome (Group × List GroupCall)
lock_all g = do
  verify (has_status g_init g || has_status g_lock g)
  let ball = new_ball (pos (length g.tolock))
  done (record g { status = g_wait; tolock = []; ball = some ball }, lock_calls g.tolock)

-- The wish of the group's DragonBall.
unfoldable pub finish : Group → Outcome (Group × List GroupCall)
unfolding abort_all_locked
finish g =
    let (g', all) = cas_status g_wait g_lock g in
    if all
    then done (g', yes_call ∷ [])
    else (verify (has_status g_timeout g) >>= λ _. done (g, no_call ∷ abort_all_locked g.locked))

-- `db_->trigger()`
unfoldable pub trigger_ball : Group → Option DragonBall → Outcome (Group × List GroupCall)
unfolding finish trigger
trigger_ball g none = fault deleted
trigger_ball g (some b) = do
  (b', ready) ← trigger b
  if ready then finish (record g { ball = b' }) else done (record g { ball = b' }, [])

-- `y_cb(id)` and `n_cb()` of a lock
unfoldable pub granted_one : ℕ → ℕ → Group → Outcome (Group × List GroupCall)
unfolding trigger_ball insert
granted_one alock id g = trigger_ball (record g { locked = insert alock id g.locked }) g.ball

unfoldable pub refused_one : Group → Outcome (Group × List GroupCall)
unfolding trigger_ball
refused_one g = trigger_ball (record g { status = g_timeout }) g.ball

-- `_wound_callback()` of a lock, where `ret` says that `wound_callback_()` returns 0.
unfoldable pub wounded_one : ℕ → Bool → Group → Group
unfolding erase
wounded_one alock ret g = if ret then record g { locked = erase alock g.locked } else g
