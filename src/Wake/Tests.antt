-- ===== src/Wake/Tests.antt =====
-- The choice of a CPU on a machine of two CPUs.
use os.Base.{◌≡◌, refl, none}
use os.RunQueue.Tests.{two_cpus}
use os.Wake.{Dispatch, select_least_loaded_cpu, least_loaded_from, next_schedulable_cpu_after}

abbrev idle_second : Dispatch
idle_second = record { machine = two_cpus; last_user_thread_cpu = none }

-- CPU 1 has three threads, CPU 2 none.
least_loaded : select_least_loaded_cpu two_cpus 1 none ≡ 2
unfolding select_least_loaded_cpu least_loaded_from next_schedulable_cpu_after
least_loaded = refl
