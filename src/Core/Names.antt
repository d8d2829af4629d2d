-- ===== src/Core/Names.antt =====
-- core/dlq.py: how the name of a dead-letter queue is made and taken apart.
use one_open_broker.Prelude.{
  ◌-◌, ◌≡◌, ◌∙◌, ◌≢◌, sym, ap, Bool, true, false, ◌++◌, Str, codes, str_eq, str_eq_refl, leb,
  if◌then◌else◌, length, take, drop, length-append, take-append, drop-append, arith,
}

abbrev pub dlq_suffix : Str
dlq_suffix = codes ".DLQ"

-- `s.endswith(t)`
unfoldable pub ends_with : Str → Str → Bool
ends_with s t = if leb (length t) (length s) then str_eq (drop (length s - length t) s) t else false

unfoldable pub is_dlq : Str → Bool
is_dlq queue = ends_with queue dlq_suffix

unfoldable pub dlq_name : Str → Str
dlq_name queue = if is_dlq queue then queue else queue ++ dlq_suffix

-- `dlq[: -len(DLQ_SUFFIX)]`
unfoldable pub origin_queue : Str → Str
origin_queue dlq = if is_dlq dlq then take (length dlq - length dlq_suffix) dlq else dlq

length-append-sub : (s t : Str) → length (s ++ t) - length t ≡ length s
length-append-sub s t = omega (arith, length-append s t)

is_dlq-append : (s : Str) → is_dlq (s ++ dlq_suffix) ≡ true
unfolding is_dlq ends_with
is_dlq-append s =
    rw (length-append-sub s dlq_suffix, drop-append s dlq_suffix)
      (ground (arith, length-append s dlq_suffix, str_eq_refl dlq_suffix))

-- The name that `dlq_name` makes is the name of a dead-letter queue, whatever it is given.
pub is_dlq-dlq_name : (queue : Str) → is_dlq (dlq_name queue) ≡ true
unfolding dlq_name
is_dlq-dlq_name queue = ground (arith, is_dlq-append queue)

-- Taking the name apart gives back the queue that it was made from, if that is not a dead-letter
-- queue itself.
pub origin_queue-dlq_name :
    (queue : Str) → is_dlq queue ≡ false → origin_queue (dlq_name queue) ≡ queue
unfolding dlq_name origin_queue
origin_queue-dlq_name queue h =
    rw (h, is_dlq-append queue, length-append-sub queue dlq_suffix, take-append queue dlq_suffix)

-- No queue other than a dead-letter queue is its own dead-letter queue.
pub dlq_name-ne : (queue : Str) → is_dlq queue ≡ false → dlq_name queue ≢ queue
dlq_name-ne queue h e = cc (h, is_dlq-dlq_name queue, ap is_dlq e)

-- Two queues that are not dead-letter queues themselves do not share a dead-letter queue.
pub dlq_name-injective :
    (p q : Str) → is_dlq p ≡ false → is_dlq q ≡ false → dlq_name p ≡ dlq_name q → p ≡ q
dlq_name-injective p q hp hq e =
    sym (origin_queue-dlq_name p hp) ∙ ap origin_queue e ∙ origin_queue-dlq_name q hq

-- A dead-letter queue's name is left as it is.
pub dlq_name_of_dlq : (queue : Str) → is_dlq queue ≡ true → dlq_name queue ≡ queue
unfolding dlq_name
dlq_name_of_dlq queue h = rw h
