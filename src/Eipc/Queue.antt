-- ===== src/Eipc/Queue.antt =====
-- The channel is a bounded first-in, first-out queue.
use axiom_os.Base.{
  leb, ◌==◌, if◌then◌else◌, le→leb, lt_or_le, length, get_or, set, drop, replicate, length-append,
  length-set, replicate-append, set-middle, snoc_append, rotate, get_or-rotate, rotate-set,
  rotate-set_at, ℕ, suc, ◌+◌, ◌-◌, ◌%◌, ◌≤◌, ◌<◌, ◌≡◌, refl, sym, ap, ap₂, ◌∙◌, inl, inr, Bool,
  true, false, Option, none, some, List, [], ◌∷◌, ◌++◌, map, append_assoc, arith,
}
use axiom_os.Eipc.{EipcMessage, EipcChannel, new, enqueue, dequeue}

-- The channel `c` holds the messages `q`, oldest first: they stand from `head` on, and the other slots
-- are empty.
pub record Holds (c : EipcChannel) (q : List EipcMessage) : Type 0 where
  pub sized : length c.slots ≡ 4
  pub head_inside : c.head < 4
  pub tail_place : c.tail ≡ (c.head + c.count) % 4
  pub counted : c.count ≡ length q
  pub few : length q ≤ 4
  pub contents : rotate c.slots c.head ≡ map some q ++ replicate (4 - length q) none

pub new-Holds : Holds new []
unfolding new
new-Holds = record {
  sized = refl;
  head_inside = omega arith;
  tail_place = refl;
  counted = refl;
  few = omega arith;
  contents = refl;
}

-- The abstract queue.
abbrev pub push : List EipcMessage → EipcMessage → Bool × List EipcMessage
push q m = if leb 4 (length q) then (false, q) else (true, q ++ (m ∷ []))

abbrev pub pop : List EipcMessage → Option EipcMessage × List EipcMessage
pop [] = (none, [])
pop (m ∷ q) = (some m, q)

length-map-some : (q : List EipcMessage) → length (map some q) ≡ length q
length-map-some [] = refl
length-map-some (m ∷ q) = ap suc (length-map-some q)

map-some-snoc :
    (q : List EipcMessage) (m : EipcMessage)
    → map some (q ++ (m ∷ [])) ≡ map some q ++ (some m ∷ [])
map-some-snoc [] m = refl
map-some-snoc (x ∷ q) m = ap (λ l. some x ∷ l) (map-some-snoc q m)

empties : (a b : ℕ) → a ≡ b → replicate {A = Option EipcMessage} a none ≡ replicate b none
empties a b e = ap (λ k. replicate k none) e

-- The write behind the last message.
added :
    (q : List EipcMessage) (m : EipcMessage)
    → length q < 4
    → (n : ℕ) → n ≡ length q
    → set (map some q ++ replicate (4 - length q) none) n (some m)
      ≡ map some (q ++ (m ∷ [])) ++ replicate (4 - length (q ++ (m ∷ []))) none
added q m room n e =
    rw
      (
        empties (4 - length q) (suc (3 - length q)) (omega arith),
        set-middle (map some q) none (some m) (replicate (3 - length q) none) n
            (length-map-some q ∙ sym e),
        map-some-snoc q m,
        snoc_append (map some q) (some m) (replicate (4 - length (q ++ (m ∷ []))) none),
        empties (4 - length (q ++ (m ∷ []))) (3 - length q)
            (omega (arith, length-append q (m ∷ []))),
      )
      refl

-- What is left behind the first message.
removed :
    (q : List EipcMessage)
    → length q < 4
    → (map some q ++ replicate (4 - suc (length q)) none) ++ (none ∷ [])
      ≡ map some q ++ replicate (4 - length q) none
removed q room =
    append_assoc (map some q) (replicate (4 - suc (length q)) none) (none ∷ [])
    ∙ ap (λ l. map some q ++ l)
        (replicate-append (4 - suc (length q)) 1 none
          ∙ empties (4 - suc (length q) + 1) (4 - length q) (omega arith))

-- `enqueue` is the push of the queue: it refuses a fifth message and otherwise adds the message behind
-- the others.
pub enqueue-push :
    (c : EipcChannel) (q : List EipcMessage) (m : EipcMessage)
    → Holds c q
    → ((enqueue c m).0 ≡ (push q m).0) × Holds (enqueue c m).1 (push q m).1
unfolding enqueue
enqueue-push c q m h = elim (lt_or_le (length q) 4) [
  | inr full ↦
      let counted = h.counted in
      let p : leb 4 c.count ≡ true = le→leb 4 c.count (omega arith) in
      rw (p, le→leb 4 (length q) full) (refl, h)
  | inl room ↦
      let counted = h.counted in
      let sized = h.sized in
      let head_inside = h.head_inside in
      let tail_place = h.tail_place in
      let p : leb 4 c.count ≡ false = ground arith in
      let r : leb 4 (length q) ≡ false = ground arith in
      rw (p, r)
        (
          refl,
          record {
            sized = length-set c.slots c.tail (some m) ∙ sized;
            head_inside = head_inside;
            tail_place = omega arith;
            counted = omega (arith, length-append q (m ∷ []));
            few = omega (arith, length-append q (m ∷ []));
            contents =
                ap (λ t. rotate (set c.slots t (some m)) c.head) tail_place
                ∙ rotate-set_at c.slots 4 c.head c.count (some m) sized head_inside (omega arith)
                ∙ ap (λ s. set s c.count (some m)) h.contents
                ∙ added q m (omega arith) c.count counted;
          },
        )
]

-- `dequeue` is the pop of the queue: the oldest message leaves it, and an empty channel is as it was.
pub dequeue-pop :
    (c : EipcChannel) (q : List EipcMessage)
    → Holds c q
    → ((dequeue c).0 ≡ (pop q).0) × Holds (dequeue c).1 (pop q).1
unfolding dequeue
dequeue-pop c [] h =
    let counted = h.counted in let p : (c.count == 0) ≡ true = ground arith in rw p (refl, h)
dequeue-pop c (m ∷ q) h =
    let counted = h.counted in
    let sized = h.sized in
    let head_inside = h.head_inside in
    let tail_place = h.tail_place in
    let few = h.few in
    let p : (c.count == 0) ≡ false = ground arith in
    rw p (
      ap (λ k. get_or c.slots k none) {x = c.head} {y = (c.head + 0) % 4} (omega arith)
          ∙ sym (get_or-rotate c.slots 4 c.head 0 none sized head_inside (omega arith))
          ∙ ap (λ s. get_or s 0 none) h.contents,
      record {
        sized = length-set c.slots c.head none ∙ sized;
        head_inside = omega arith;
        tail_place = omega arith;
        counted = omega arith;
        few = omega arith;
        contents =
            rotate-set c.slots 4 c.head none sized head_inside
            ∙ ap (λ s. drop 1 s ++ (none ∷ [])) h.contents
            ∙ removed q (omega arith);
      },
    )

-- A use of the channel, and what it answers.
pub data Use : Type 0 where
  send : EipcMessage → Use
  receive : Use

pub data Answer : Type 0 where
  sent : Bool → Answer
  received : Option EipcMessage → Answer

abbrev pub run : EipcChannel → List Use → List Answer
run c [] = []
run c (send m ∷ us) = let r = enqueue c m in sent r.0 ∷ run r.1 us
run c (receive ∷ us) = let r = dequeue c in received r.0 ∷ run r.1 us

abbrev pub run_queue : List EipcMessage → List Use → List Answer
run_queue q [] = []
run_queue q (send m ∷ us) = let r = push q m in sent r.0 ∷ run_queue r.1 us
run_queue q (receive ∷ us) = let r = pop q in received r.0 ∷ run_queue r.1 us

run-Holds :
    (c : EipcChannel) (q : List EipcMessage) (us : List Use) → Holds c q → run c us ≡ run_queue q us
run-Holds c q [] h = refl
run-Holds c q (send m ∷ us) h =
    let r = enqueue-push c q m h in
    ap₂ ◌∷◌ (ap sent r.0) (run-Holds (enqueue c m).1 (push q m).1 us r.1)
run-Holds c q (receive ∷ us) h =
    let r = dequeue-pop c q h in
    ap₂ ◌∷◌ (ap received r.0) (run-Holds (dequeue c).1 (pop q).1 us r.1)

-- However sends and receives alternate, a new channel answers each as a first-in, first-out queue of
-- at most four messages does.
pub run-refines : (us : List Use) → run new us ≡ run_queue [] us
run-refines us = run-Holds new [] us new-Holds
