-- ===== src/Cond/Life.antt =====
-- `CThreadCond` of common/threadmutex.h: its flags, and the calls of pthread that its methods make.
use websocket_test.Base.{
  ℕ, Bool, true, false, not, ◌&&◌, ◌≡◌, refl, Option, none, some, List, [], ◌∷◌, ◌++◌,
  if◌then◌else◌,
}

-- `_is_init` and `_is_create`.
pub record ThreadCond : Type 0 where
  pub is_init : Bool
  pub is_create : Bool

-- The calls on `_mutex` and `_cond`.
pub data PthreadCall : Type 0 where
  mutex_init cond_init mutex_destroy cond_destroy mutex_lock mutex_unlock cond_wait cond_timedwait
        cond_signal :
      PthreadCall

-- The constructors.
unfoldable pub new_cond : ThreadCond
new_cond = record { is_init = false; is_create = false }

unfoldable pub copy_cond : ThreadCond → ThreadCond
copy_cond c = record { is_init = c.is_init; is_create = false }

-- What a method leaves: the flags, the calls that it has made, and what it returns, if it returns something.
pub record Ran : Type 0 where
  pub after : ThreadCond
  pub calls : List PthreadCall
  pub returns : Option ℕ

unfoldable pub init : ThreadCond → Ran
init c = record {
  after = record { is_init = true; is_create = true };
  calls = mutex_init ∷ cond_init ∷ [];
  returns = none;
}

unfoldable pub destory : ThreadCond → Ran
destory c =
    if c.is_create
    then record {
      after = record c { is_init = false };
      calls = mutex_destroy ∷ cond_destroy ∷ [];
      returns = none;
    }
    else record { after = c; calls = []; returns = none }

-- `WaitCondTimeOut`, `WaitCond` and `SetCond`, which differ in the call between those on the mutex; `ret` is what
-- that call returns.
unfoldable pub locked_call : PthreadCall → ℕ → ThreadCond → Ran
locked_call call ret c =
    if not c.is_init
    then record { after = c; calls = []; returns = some 2 }
    else record { after = c; calls = mutex_lock ∷ call ∷ mutex_unlock ∷ []; returns = some ret }

abbrev pub wait_cond_time_out : ℕ → ThreadCond → Ran
wait_cond_time_out = locked_call cond_timedwait

abbrev pub wait_cond : ℕ → ThreadCond → Ran
wait_cond = locked_call cond_wait

abbrev pub set_cond : ℕ → ThreadCond → Ran
set_cond = locked_call cond_signal

pub data Method : Type 0 where
  inits destories : Method
  waits_for waits sets : ℕ → Method

unfoldable pub call : Method → ThreadCond → Ran
call inits c = init c
call destories c = destory c
call (waits_for ret) c = wait_cond_time_out ret c
call (waits ret) c = wait_cond ret c
call (sets ret) c = set_cond ret c

-- Methods one after another: all calls that they make, and what they return.
unfoldable pub pthread_calls : List Method → ThreadCond → List PthreadCall
pthread_calls [] c = []
pthread_calls (m ∷ ms) c = (call m c).calls ++ pthread_calls ms (call m c).after

unfoldable pub answers : List Method → ThreadCond → List (Option ℕ)
answers [] c = []
answers (m ∷ ms) c = (call m c).returns ∷ answers ms (call m c).after

-- What POSIX asks of the callers: which objects are initialised, and whether the mutex is held.
pub record Objects : Type 0 where
  pub mutex : Bool
  pub cond : Bool
  pub held : Bool

abbrev pub no_objects : Objects
no_objects = record { mutex = false; cond = false; held = false }

abbrev pub when : Bool → Objects → Option Objects
when ok o = if ok then some o else none

-- `none` where the effect of the call is undefined.
unfoldable pub made : PthreadCall → Objects → Option Objects
made mutex_init o = when (not o.mutex) (record o { mutex = true; held = false })
made cond_init o = when (not o.cond) (record o { cond = true })
made mutex_destroy o = when (o.mutex && not o.held) (record o { mutex = false })
made cond_destroy o = when o.cond (record o { cond = false })
made mutex_lock o = when (o.mutex && not o.held) (record o { held = true })
made mutex_unlock o = when (o.mutex && o.held) (record o { held = false })
made cond_wait o = when (o.cond && o.held) o
made cond_timedwait o = when (o.cond && o.held) o
made cond_signal o = when o.cond o

unfoldable pub all_defined : List PthreadCall → Objects → Bool
all_defined [] o = true
all_defined (c ∷ cs) o = elim (made c o) [ none ↦ false | some o' ↦ all_defined cs o' ]

-- Where a condition is in its life.
pub data Phase : Type 0 where
  fresh up down : Phase

-- The order of the methods that keeps to it: no `init` before the `destory` of the one before, and no second
-- `destory`.
unfoldable pub in_turn : Phase → List Method → Bool
in_turn p [] = true
in_turn fresh (inits ∷ ms) = in_turn up ms
in_turn up (inits ∷ ms) = false
in_turn down (inits ∷ ms) = in_turn up ms
in_turn fresh (destories ∷ ms) = in_turn fresh ms
in_turn up (destories ∷ ms) = in_turn down ms
in_turn down (destories ∷ ms) = false
in_turn p (waits_for ret ∷ ms) = in_turn p ms
in_turn p (waits ret ∷ ms) = in_turn p ms
in_turn p (sets ret ∷ ms) = in_turn p ms

-- The flags and the objects of each phase.
abbrev pub flags : Phase → ThreadCond
flags fresh = record { is_init = false; is_create = false }
flags up = record { is_init = true; is_create = true }
flags down = record { is_init = false; is_create = true }

abbrev pub objects : Phase → Objects
objects fresh = no_objects
objects up = record { mutex = true; cond = true; held = false }
objects down = no_objects

-- The phase behind a method, whether in turn or not, and what the method returns.
unfoldable pub next_phase : Phase → Method → Phase
next_phase p inits = up
next_phase fresh destories = fresh
next_phase up destories = down
next_phase down destories = down
next_phase p (waits_for ret) = p
next_phase p (waits ret) = p
next_phase p (sets ret) = p

abbrev pub if_up : Phase → ℕ → Option ℕ
if_up fresh ret = some 2
if_up up ret = some ret
if_up down ret = some 2

unfoldable pub expected : Phase → List Method → List (Option ℕ)
expected p [] = []
expected p (inits ∷ ms) = none ∷ expected up ms
expected p (destories ∷ ms) = none ∷ expected (next_phase p destories) ms
expected p (waits_for ret ∷ ms) = if_up p ret ∷ expected p ms
expected p (waits ret ∷ ms) = if_up p ret ∷ expected p ms
expected p (sets ret ∷ ms) = if_up p ret ∷ expected p ms

-- A copy of a condition that is set up has objects of its own, which nothing has initialised: a wait on it is
-- undefined.
copy_cond-undefined :
    (ret : ℕ) (ms : List Method)
    → all_defined (pthread_calls (waits ret ∷ ms) (copy_cond (flags up))) no_objects ≡ false
unfolding all_defined pthread_calls call made locked_call copy_cond
copy_cond-undefined ret ms = refl
