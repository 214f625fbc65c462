-- ===== src/EventRing.antt =====
-- The ring of kernel events: src/kernel/debug/event_ring.cpp. The array `records_` is a map from slots
-- to records, and so is the buffer that a snapshot fills.
pub mod Recent
pub mod Tests
use os.Base.{ℕ, zero, suc, ◌+◌, ◌-◌, ◌%◌, ◌^◌, Option, none, some, ltb, ◌==◌, if◌then◌else◌, update}

-- `kEventRingCapacity`
abbrev pub event_ring_capacity : ℕ
event_ring_capacity = 256

pub record Os1ObserveEventRecord : Type 0 where
  pub sequence : ℕ
  pub tick_count : ℕ
  pub pid : ℕ
  pub tid : ℕ
  pub arg0 : ℕ
  pub arg1 : ℕ
  pub arg2 : ℕ
  pub arg3 : ℕ
  pub type : ℕ
  pub flags : ℕ
  pub cpu : ℕ

abbrev pub blank_record : Os1ObserveEventRecord
blank_record = record {
  sequence = 0;
  tick_count = 0;
  pid = 0;
  tid = 0;
  arg0 = 0;
  arg1 = 0;
  arg2 = 0;
  arg3 = 0;
  type = 0;
  flags = 0;
  cpu = 0;
}

pub record KernelEventRing : Type 0 where
  pub records : ℕ → Os1ObserveEventRecord
  pub next_sequence : ℕ
  pub head : ℕ
  pub count : ℕ

-- The loop of `KernelEventRing::reset`, with `r` slots left from slot `i` on.
unfoldable pub reset_records : (ℕ → Os1ObserveEventRecord) → ℕ → ℕ → ℕ → Os1ObserveEventRecord
reset_records records zero i = records
reset_records records (suc r) i = reset_records (update records i blank_record) r (i + 1)

-- `KernelEventRing::reset()`
unfoldable pub reset : KernelEventRing → KernelEventRing
reset ring = record {
  records = reset_records ring.records event_ring_capacity 0;
  next_sequence = 1;
  head = 0;
  count = 0;
}

-- `KernelEventRing::append`, which is given the event without its sequence number.
unfoldable pub append :
    KernelEventRing → Os1ObserveEventRecord → KernelEventRing × Os1ObserveEventRecord
append ring event =
    let numbered = record event { sequence = ring.next_sequence } in
    (
      record {
        records = update ring.records ring.head numbered;
        next_sequence = (ring.next_sequence + 1) % 2 ^ 64;
        head = (ring.head + 1) % event_ring_capacity;
        count = if ltb ring.count event_ring_capacity then ring.count + 1 else ring.count;
      },
      numbered,
    )

abbrev pub min_u32 : ℕ → ℕ → ℕ
min_u32 left right = if ltb left right then left else right

-- The loop of `KernelEventRing::snapshot`, with `r` records left from record `i` on.
unfoldable pub copy_records :
    KernelEventRing → ℕ → ℕ → ℕ → (ℕ → Os1ObserveEventRecord) → ℕ → Os1ObserveEventRecord
copy_records ring start zero i out = out
copy_records ring start (suc r) i out =
    copy_records ring start r (i + 1)
      (update out i (ring.records ((start + i) % event_ring_capacity)))

-- `KernelEventRing::snapshot(records, max_records)`: the buffer afterwards and the count; without a
-- buffer `none`.
unfoldable pub snapshot :
    KernelEventRing
    → Option (ℕ → Os1ObserveEventRecord)
    → ℕ
    → Option (ℕ → Os1ObserveEventRecord) × ℕ
snapshot ring none max_records = (none, 0)
snapshot ring (some out) max_records =
    if max_records == 0
    then (some out, 0)
    else let copy_count = min_u32 ring.count max_records in
      let start = (ring.head + event_ring_capacity - copy_count) % event_ring_capacity in
      (some (copy_records ring start copy_count 0 out), copy_count)

-- The thread that `record` names as the subject: the current thread's identity, and its process's.
abbrev pub subject_tid : Option (ℕ × Option ℕ) → ℕ
subject_tid none = 0
subject_tid (some (tid, process)) = tid

abbrev pub subject_pid : Option (ℕ × Option ℕ) → ℕ
subject_pid none = 0
subject_pid (some (tid, none)) = 0
subject_pid (some (tid, some pid)) = pid

-- `kernel_event::record`, where `current` is the current thread with its process.
unfoldable pub record_current :
    KernelEventRing → Option (ℕ × Option ℕ) → Os1ObserveEventRecord → KernelEventRing
record_current ring current event =
    (append ring (record event { tid = subject_tid current; pid = subject_pid current })).0
