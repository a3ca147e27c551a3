-- ===== src/Policy/Tests.antt =====
-- Policies at concrete peers, and the theorems of the policies at them.
use index_provider.Prelude.{
  ◌≡◌, refl, true, false, not, none, some, [], ◌∷◌, ite, member, add, ℕ_discrete,
}
use index_provider.Schema.{PeerId}
use index_provider.Engine.Keys.{bytes_discrete}
use index_provider.Policy.{
  Heap, Policy, eval, any, same, set_peer, new_policy, copy, allow, block, allowed,
}
use index_provider.Policy.Evaluation.{eval-set_peer, changed-set_peer}
use index_provider.Policy.Aliasing.{allow-copy}

abbrev alice : PeerId
alice = 1 ∷ 1 ∷ []

abbrev bob : PeerId
bob = 1 ∷ 2 ∷ []

abbrev start : Heap
start = record { next = 0; maps = λ i. [] }

-- Nobody is allowed but Alice.
abbrev heap : Heap
heap = record { next = 1; maps = λ i. alice ∷ [] }

abbrev policy : Policy
policy = record { value = false; except = some 0 }

program : Unit {0}
unfolding new_policy eval any set_peer copy allow block allowed bytes_discrete member add ℕ_discrete
program = tt

made : (new_policy start false (alice ∷ alice ∷ [])).1 ≡ policy
unfolding program
made = refl

made_alice : eval (new_policy start false (alice ∷ alice ∷ [])).0 policy alice ≡ true
unfolding program
made_alice = refl

-- Allowing Bob on the copy allows him in the original.
shared : eval (allow heap (copy policy policy) bob).0 policy bob ≡ true
unfolding program
shared = refl

eval-set_peer_example :
    eval (set_peer heap policy bob true).0 (set_peer heap policy bob true).1 alice
    ≡ ite (bytes_discrete bob alice) true (eval heap policy alice)
eval-set_peer_example = eval-set_peer heap policy bob alice true

abbrev open_policy : Policy
open_policy = record { value = true; except = none }

nothing_denied : any heap open_policy false ≡ false
unfolding program
nothing_denied = refl

changed-set_peer_example :
    (set_peer heap policy alice false).2 ≡ not (same false (eval heap policy alice))
unfolding program
changed-set_peer_example = changed-set_peer heap policy alice false (refl, tt)

allow-copy_example :
    eval (allow heap (copy open_policy policy) bob).0 policy alice
    ≡ ite (bytes_discrete bob alice) true (eval heap policy alice)
allow-copy_example = allow-copy heap open_policy policy 0 bob alice refl
