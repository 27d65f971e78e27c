-- ===== src/Lists/Tests.antt =====
-- Runs of src/kernel/lib/list.c and queue.c at concrete lists.
use unnamed_os.Base.{◌≡◌, refl, false, none, some, List, [], ◌∷◌, ok, ◌>>=◌, arith}
use unnamed_os.Lists.{
  Heap, list_create, node, write, list_destroy, list_remove, list_create_node, stored, load,
  set_next, set_prev, link_next, link_prev, list_push_front, list_push_back, list_pop_front,
  list_pop_back, list_front, list_empty, list_size, size_loop, find_loop, unlink, list_find,
}
use unnamed_os.Lists.Chain.{Cells, items, Linked, nil, cons}
use unnamed_os.Lists.Unlink.{listed}
use unnamed_os.Lists.Refinement.{
  ListOp, push_front, push_back, pop_front, size, find, remove, done, number, flag, Agrees,
  represents,
}
use unnamed_os.Lists.Walk.{Gone, list_destroy-Destroys, Removes, list_remove-Removes}
use unnamed_os.Lists.Runs.{run, abstract_run, run-Agrees}
use unnamed_os.Lists.Queue.{queue_create, enqueue_all, dequeue_all, queue_dequeue-enqueue}

abbrev no_memory : Heap
no_memory q = none

abbrev operations : List ListOp
operations =
    push_back 4096 10
    ∷ push_front 8192 11
    ∷ push_back 12288 12
    ∷ remove 10
    ∷ size
    ∷ pop_front
    ∷ find 10
    ∷ []

abbrev two_cells : Cells
two_cells = (4096, 10) ∷ (8192, 11) ∷ []

abbrev two_nodes : Heap
two_nodes = write (write no_memory 4096 (some (node 10 0 8192))) 8192 (some (node 11 4096 0))

two_nodes-Linked : Linked two_nodes 0 0 two_cells
two_nodes-Linked = cons refl refl refl (cons refl refl refl nil)

operations_answer :
    abstract_run operations []
    ≡ ok (done ∷ done ∷ done ∷ done ∷ number 2 ∷ number 11 ∷ flag false ∷ [], 12 ∷ [])
operations_answer = refl

run-Agrees_example : Agrees (run 9 operations (list_create no_memory)) (abstract_run operations [])
unfolding list_create_node stored load set_next set_prev link_next link_prev list_push_front
    list_push_back list_pop_front list_pop_back list_front list_empty list_size size_loop find_loop
    unlink list_remove list_find
run-Agrees_example =
    run-Agrees 9 operations (list_create no_memory) [] (represents [] nil)
      ((refl, refl), ((refl, refl), ((refl, refl), (tt, (tt, (tt, (tt, tt))))))) (omega arith)

queue_dequeue-enqueue_example :
    (g : Heap) × ((enqueue_all two_cells (queue_create no_memory) >>= dequeue_all two_cells)
      ≡ ok (items two_cells, queue_create g))
queue_dequeue-enqueue_example =
    queue_dequeue-enqueue no_memory two_cells (refl, refl, refl, (refl, refl, refl, tt))

list_destroy-Destroys_example :
    Gone two_nodes 20480 two_cells (list_destroy 3 20480 (listed two_cells two_nodes))
list_destroy-Destroys_example =
    list_destroy-Destroys 3 20480 two_nodes two_cells two_nodes-Linked (omega arith)

list_remove-Removes_example :
    Removes 11 two_nodes two_cells (list_remove 3 11 (listed two_cells two_nodes))
list_remove-Removes_example =
    list_remove-Removes 3 11 two_nodes two_cells two_nodes-Linked (omega arith)
