-- ===== src/Lock/Protocol.antt =====
-- Processes that take, reclaim and release the lock, one system call at a time. A process is its
-- number, and its token names it: the token holds a nonce. What the clocks and the table of
-- processes tell is open: a process may judge the lock abandoned at any time.
use saga_forge.Base.{ℕ, List, [], ◌∷◌, Option, none, some, if◌then◌else◌, ◌==◌}

-- The lock file: not there, made by a process that has not token_written its token, or with a token.
pub data Lock : Type 0 where
  free : Lock
  made owned : ℕ → Lock

-- Where a process stands: polling, behind `O_CREAT|O_EXCL`, in the hold, between the second read of
-- the owner and the `unlink` of a reclaim, the same of its release, and done.
pub data Phase : Type 0 where
  polling created holding reclaiming releasing done : Phase

pub record World : Type 0 where
  pub lock : Lock
  pub phase : ℕ → Phase

abbrev pub at_start : World
at_start = record { lock = free; phase = λ _. polling }

pub data Action : Type 0 where
  create write judge remove check_own drop give_up crash : ℕ → Action

abbrev pub move : ℕ → Phase → (ℕ → Phase) → ℕ → Phase
move p ph phases q = if q == p then ph else phases q

abbrev pub go_on : ℕ → Phase → Lock → World → Option World
go_on p ph l w = some (record { lock = l; phase = move p ph w.phase })

-- The token goes into the file that the process made, whether or not that is still the lock.
abbrev pub token_written : ℕ → Lock → Lock
token_written p (made q) = if q == p then owned p else made q
token_written p l = l

abbrev pub create_on : Lock → ℕ → World → Option World
create_on free p w = go_on p created (made p) w
create_on l p w = none

-- An owner that cannot be read is no reason to reclaim.
abbrev pub judge_on : Lock → ℕ → World → Option World
judge_on free p w = none
judge_on l p w = go_on p reclaiming l w

-- The release goes on only if the lock still carries the own token.
abbrev pub own_on : Lock → ℕ → World → Option World
own_on (owned q) p w = if q == p then go_on p releasing (owned q) w else go_on p done (owned q) w
own_on l p w = go_on p done l w

-- The action, where the process stands at it.
abbrev pub act_at : Action → Phase → World → Option World
act_at (create p) polling w = create_on w.lock p w
act_at (write p) created w = go_on p holding (token_written p w.lock) w
act_at (judge p) polling w = judge_on w.lock p w
act_at (remove p) reclaiming w = go_on p polling free w
act_at (check_own p) holding w = own_on w.lock p w
act_at (drop p) releasing w = go_on p done free w
act_at (give_up p) polling w = go_on p done w.lock w
act_at (crash p) ph w = go_on p done w.lock w
act_at _ _ w = none

abbrev pub actor : Action → ℕ
actor (create p) = p
actor (write p) = p
actor (judge p) = p
actor (remove p) = p
actor (check_own p) = p
actor (drop p) = p
actor (give_up p) = p
actor (crash p) = p

unfoldable pub act : Action → World → Option World
act a w = act_at a (w.phase (actor a)) w

abbrev pub and_act : Option World → (World → Option World) → Option World
and_act none k = none
and_act (some w) k = k w

-- An interleaving of the processes, or nothing where it is none.
unfoldable pub run : List Action → World → Option World
unfolding act
run [] w = some w
run (a ∷ rest) w = and_act (act a w) (run rest)
