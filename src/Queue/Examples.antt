-- ===== src/Queue/Examples.antt =====
-- A data queue with two payloads.
use net_blocks.Base.{◌+◌, ◌*◌, ◌≡◌, arith}
use net_blocks.Queue.{DataQueue, read}
use net_blocks.Queue.Refine.{contents, with_contents, read_front, read-contents}

abbrev two_payloads : DataQueue
two_payloads = record { elems = λ i. 1000 + 64 * i; sizes = λ i. 20 + i; current_elems = 2 }

read-contents_example : with_contents (read two_payloads 8) ≡ read_front (contents two_payloads) 8
read-contents_example = read-contents two_payloads 8 (omega arith) (omega arith)
