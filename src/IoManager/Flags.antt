-- ===== src/IoManager/Flags.antt =====
-- The events of a descriptor: IOManager::Event, and the sets of READ and WRITE that its bits form.
use fatdog.Base.{ℕ, ◌+◌, Bool, true, false, not, if◌then◌else◌}

pub data Event : Type 0 where
  read write : Event

-- The bits READ and WRITE of a value.
pub record Events : Type 0 where
  pub read : Bool
  pub write : Bool

abbrev pub no_events : Events
no_events = record { read = false; write = false }

-- events & event
abbrev pub has : Event → Events → Bool
has read es = es.read
has write es = es.write

-- events | event
abbrev pub with_event : Event → Events → Events
with_event read es = record es { read = true }
with_event write es = record es { write = true }

-- events & ~event
abbrev pub without_event : Event → Events → Events
without_event read es = record es { read = false }
without_event write es = record es { write = false }

abbrev pub is_none : Events → Bool
is_none es = if es.read then false else not es.write

-- events & other, and events & ~other
abbrev pub common : Events → Events → Events
common es other = record {
  read = if es.read then other.read else false;
  write = if es.write then other.write else false;
}

abbrev pub left : Events → Events → Events
left es other = record {
  read = if other.read then false else es.read;
  write = if other.write then false else es.write;
}

-- How many events a set has.
abbrev pub bit : Bool → ℕ
bit true = 1
bit false = 0

abbrev pub size : Events → ℕ
size es = bit es.read + bit es.write
