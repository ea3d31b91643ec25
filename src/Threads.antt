-- ===== src/Threads.antt =====
-- The threads that the devices launch: src/threadStd.cpp, src/threadBaseImpl.cpp, src/thread.cpp, and
-- runInThread of src/factoryBaseImpl.cpp, src/baseImpl.cpp and src/base.cpp. A thread of the standard
-- library is joinable from its launch until it is joined.
use nds.Prelude.{Bool, true, false, Option, none, some, if◌then◌else◌, Text}
use nds.Types.{Result, ok, err, Exception, runtime_error}

pub record ThreadStd : Type 0 where
  pub name : Text
  pub joinable : Bool

abbrev pub get_name_of : ThreadStd → Text
get_name_of t = t.name

-- A `Thread`: the pointer that it holds, where no other `Thread` shares it.
abbrev pub Thread : Type 0
Thread = Option ThreadStd

-- The constructor of ThreadStd; std::thread throws a std::system_error where it cannot launch.
unfoldable pub new_thread_std : Bool → Text → Result ThreadStd
new_thread_std can_launch name =
    if can_launch then ok (record { name = name; joinable = true }) else err runtime_error

-- How a call on a pointer ends: `lost` where the pointer is null, or std::terminate is called.
pub data Called (A : Type 0) : Type 0 where
  came_back : A → Called A
  failed : Exception → Called A
  lost : Called A

-- runInThread of an object that is called with its own factory, where it has been initialized.
unfoldable pub run_in_thread : (initialized can_launch : Bool) → Text → Called ThreadStd
run_in_thread false can_launch name = lost
run_in_thread true can_launch name = elim (new_thread_std can_launch name) [
  | ok t ↦ came_back t
  | err e ↦ failed e
]

-- Thread::join, by ThreadStd::join.
unfoldable pub join : Thread → Called Thread
join none = lost
join (some t) =
    if t.joinable then came_back (some (record t { joinable = false })) else failed runtime_error

-- Thread::operator=, which destroys the thread that the pointer held before: a joinable one calls
-- std::terminate.
unfoldable pub assign : Thread → ThreadStd → Called Thread
assign none t = came_back (some t)
assign (some old) t = if old.joinable then lost else came_back (some t)
