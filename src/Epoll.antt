-- ===== src/Epoll.antt =====
-- `CEpoll` of common/myepoll.h and common/myepoll.cpp, and the part of the kernel's epoll interface that
-- it calls: the interest list, from descriptor to event mask.
pub mod Laws
use websocket_test.Base.{
  ℕ, ◌+◌, Bool, true, false, not, ◌||◌, Option, none, some, List, [], ◌∷◌, ◌==◌, if◌then◌else◌,
  length, Status, failed, code,
}

-- An event mask: EPOLLIN, EPOLLOUT, EPOLLERR, EPOLLHUP.
pub record Events : Type 0 where
  pub input : Bool
  pub output : Bool
  pub error : Bool
  pub hang_up : Bool

-- `EPOLLERR|EPOLLHUP|EPOLLIN`, and the same with `EPOLLOUT`.
abbrev pub reading : Events
reading = record { input = true; output = false; error = true; hang_up = true }

abbrev pub writing : Events
writing = record { input = true; output = true; error = true; hang_up = true }

abbrev pub Interest : Type 0
Interest = List (ℕ × Events)

unfoldable pub find : ℕ → Interest → Option Events
find fd [] = none
find fd ((k, e) ∷ rest) = if k == fd then some e else find fd rest

-- EPOLL_CTL_DEL.
unfoldable pub remove : ℕ → Interest → Interest
remove fd [] = []
remove fd ((k, e) ∷ rest) =
    let others = remove fd rest in if k == fd then others else (k, e) ∷ others

-- EPOLL_CTL_MOD of a descriptor that is there; of one that is not, ENOENT.
unfoldable pub modify : ℕ → Events → Interest → Interest
modify fd e [] = []
modify fd e ((k, old) ∷ rest) =
    let others = modify fd e rest in if k == fd then (k, e) ∷ others else (k, old) ∷ others

add_unless : Option Events → ℕ → Events → Interest → Interest
add_unless none fd e i = (fd, e) ∷ i
add_unless (some old) fd e i = i

-- EPOLL_CTL_ADD; of a descriptor that is there already, EEXIST.
unfoldable pub add : ℕ → Events → Interest → Interest
unfolding add_unless find
add fd e i = add_unless (find fd i) fd e i

-- `AddToEpoll`, `DelFromEpoll` and `ModifyFromEpoll` by the task's descriptor; -1 is `none`, which the
-- kernel refuses. The results of `epoll_ctl` are not looked at.
unfoldable pub add_to_epoll : Option ℕ → Events → Interest → Interest
unfolding add
add_to_epoll none e i = i
add_to_epoll (some fd) e i = add fd e i

unfoldable pub del_from_epoll : Option ℕ → Interest → Interest
unfolding remove
del_from_epoll none i = i
del_from_epoll (some fd) i = remove fd i

unfoldable pub modify_from_epoll : Option ℕ → Events → Interest → Interest
unfolding modify
modify_from_epoll none e i = i
modify_from_epoll (some fd) e i = modify fd e i

-- What `epoll_wait` reports for one descriptor: the task pointer (`none` for NULL) and the events.
abbrev pub Ready : Type 0
Ready = Option ℕ × Events

-- `EpollWait`: `none` is the kernel's -1. Each task handles its events, in the order of the report.
module _ {S : Type 0} (handle_process : ℕ → Events → S → S) where
  unfoldable pub dispatch : List Ready → S → S
  dispatch [] s = s
  dispatch ((none, e) ∷ rest) s = dispatch rest s
  dispatch ((some task, e) ∷ rest) s = dispatch rest (handle_process task e s)

  unfoldable pub epoll_wait : Option (List Ready) → S → S × ℕ
  unfolding dispatch
  epoll_wait none s = (s, 0)
  epoll_wait (some ready) s = (dispatch ready s, length ready)
