-- ===== src/Alarm.antt =====
-- src/misc/alarm.hpp: class Alarm. The map from an id to a time and a callback is the list of its
-- entries in the order of their ids; an id that is added is larger than every earlier one, so it
-- goes to the end. A callback is named by a number, and does not call the alarm while it runs.
pub mod Waiting
use s_rpc.Base.{
  ℕ, suc, ◌+◌, Bool, true, false, List, [], ◌∷◌, ◌++◌, ltb, ◌==◌, if◌then◌else◌, Option, none, some,
}

pub record Entry : Type 0 where
  pub key : ℕ
  pub time : ℕ
  pub func : ℕ

-- `next_id_` and `waiting_`.
pub record Alarm : Type 0 where
  pub next_id : ℕ
  pub waiting : List Entry

abbrev pub new_alarm : Alarm
new_alarm = record { next_id = 1; waiting = [] }

-- `add(time, func)`
unfoldable pub add : ℕ → ℕ → Alarm → Alarm × ℕ
add time func a =
    let id = a.next_id in
    (
      record {
        next_id = suc id;
        waiting = a.waiting ++ record { key = id; time = time; func = func } ∷ [];
      },
      id,
    )

-- `waiting_.erase(id)`: the map without the key, and the number of entries that it had.
unfoldable pub erase : ℕ → List Entry → List Entry × ℕ
erase id [] = ([], 0)
erase id (e ∷ es) = let (rest, n) = erase id es in if e.key == id then (es, 1) else (e ∷ rest, n)

-- `remove(id)`
unfoldable pub remove : ℕ → Alarm → Alarm × Bool
unfolding erase
remove id a = let (rest, n) = erase id a.waiting in (record a { waiting = rest }, n == 1)

-- `exe_next()` at a time: the callback that is made.
unfoldable pub exe_next : ℕ → List Entry → List Entry × Option ℕ
exe_next now [] = ([], none)
exe_next now (e ∷ es) = if ltb e.time now then (es, some e.func) else (e ∷ es, none)

-- The loop goes on after a call.
abbrev pub go_on : List Entry × List ℕ → List Entry × Option ℕ → List Entry × List ℕ
go_on (rest, calls) (es, none) = (es, [])
go_on (rest, calls) (es, some f) = (rest, f ∷ calls)

-- `while (exe_next()) { }`, where the clock is read before each test.
unfoldable pub run_from : (ℕ → ℕ) → ℕ → List Entry → List Entry × List ℕ
run_from clock i [] = ([], [])
run_from clock i (e ∷ es) =
    let (rest, calls) = run_from clock (suc i) es in
    go_on (rest, calls) (exe_next (clock i) (e ∷ es))

-- `run()`
unfoldable pub run : (ℕ → ℕ) → Alarm → Alarm × List ℕ
unfolding run_from
run clock a = let (rest, calls) = run_from clock 0 a.waiting in (record a { waiting = rest }, calls)
