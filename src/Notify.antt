-- ===== src/Notify.antt =====
-- src/notify.rs: the trait `Notify`, as what its two methods do to the state of the notifier.
pub record Notify (N : Type 0) : Type 0 where
  pub notify_dequeue : N → N
  pub notify_enqueue : N → N

-- `impl Notify for ()`
abbrev pub no_notify : Notify (Unit {0})
no_notify = record { notify_dequeue = λ n. n; notify_enqueue = λ n. n }
