-- ===== src/Net/Stream/Recovery.antt =====
-- How a client of StreamServer that fell behind resumes, and when a keyframe is asked for.
use nova_visualiser.Prelude.{
  ℕ, zero, suc, ◌+◌, ◌≤◌, ◌<◌, ◌≡◌, refl, ap, ◌∙◌, Bool, true, false, not, ◌&&◌, ◌||◌, Option, none,
  some, List, [], ◌∷◌, ◌++◌, append-nil, append_assoc, length, length-append, arith, All, inl, inr,
  Bool-cases, if◌then◌else◌,
}
use nova_visualiser.Net.Continuity.{Frame}
use nova_visualiser.Net.Stream.{
  Client, Server, max_queued_frames, enqueue, offer, offer_all, broadcast_packet,
}
use nova_visualiser.Net.Stream.Delivery.{IsInStep, clients-broadcast_packet}

-- The frames from the first keyframe on
abbrev pub from_keyframe : List Frame → List Frame
from_keyframe [] = []
from_keyframe (f ∷ fs) = let later = from_keyframe fs in if f.keyframe then f ∷ fs else later

abbrev pub is_empty : List Frame → Bool
is_empty [] = true
is_empty (f ∷ fs) = false

-- A client that waits for a keyframe, with nothing in its queue
abbrev pub waits : Client Frame → Client Frame
waits c = record c { queue = []; awaiting_keyframe = true }

abbrev flows : List Frame → Client Frame → Client Frame
flows queue c = record c { queue = queue; awaiting_keyframe = false }

abbrev pub get_elem? : List (Client Frame) → ℕ → Option (Client Frame)
get_elem? [] i = none
get_elem? (c ∷ cs) zero = some c
get_elem? (c ∷ cs) (suc i) = get_elem? cs i

offers : List Frame → Client Frame → Client Frame
unfolding offer
offers [] c = c
offers (f ∷ fs) c = offers fs (offer f.keyframe f c).0

-- The render thread broadcasts these frames one behind another.
abbrev pub broadcast_frames : {D : Type 0} → List Frame → Server Frame D → Server Frame D
broadcast_frames [] s = s
broadcast_frames (f ∷ fs) s = broadcast_frames fs (broadcast_packet f.keyframe f s)

get_elem?-offer_all :
    (k : Bool) (f : Frame) (cs : List (Client Frame)) (i : ℕ) (c : Client Frame)
    → get_elem? cs i ≡ some c
    → get_elem? (offer_all k f cs).0 i ≡ some (offer k f c).0
unfolding offer_all
get_elem?-offer_all k f [] i c h = cc
get_elem?-offer_all k f (b ∷ cs) zero c h = ap (λ o. offered o) h
  where
    offered : Option (Client Frame) → Option (Client Frame)
    offered none = none
    offered (some c) = some (offer k f c).0
get_elem?-offer_all k f (b ∷ cs) (suc i) c h = get_elem?-offer_all k f cs i c h

get_elem?-broadcast_frames :
    {D : Type 0} (fs : List Frame) (s : Server Frame D) (i : ℕ) (c : Client Frame)
    → get_elem? s.clients i ≡ some c
    → get_elem? (broadcast_frames fs s).clients i ≡ some (offers fs c)
unfolding offers
get_elem?-broadcast_frames [] s i c h = h
get_elem?-broadcast_frames (f ∷ fs) s i c h =
    get_elem?-broadcast_frames fs (broadcast_packet f.keyframe f s) i (offer f.keyframe f c).0 (
      rw (clients-broadcast_packet f.keyframe f s s.clients refl)
        (get_elem?-offer_all f.keyframe f s.clients i c h))

enqueue-flows :
    (f : Frame) (queue : List Frame) (c : Client Frame)
    → length queue < max_queued_frames
    → (enqueue f (flows queue c)).0 ≡ flows (queue ++ f ∷ []) c
unfolding enqueue
enqueue-flows f queue c h = ground arith

-- A client that does not wait takes every frame while there is room.
offers-flows :
    (fs queue : List Frame) (c : Client Frame)
    → length queue + length fs ≤ max_queued_frames
    → offers fs (flows queue c) ≡ flows (queue ++ fs) c
unfolding offers offer
offers-flows [] queue c h = rw (append-nil queue) refl
offers-flows (f ∷ fs) queue c h =
    ap (offers fs) (enqueue-flows f queue c (omega arith))
    ∙ offers-flows fs (queue ++ f ∷ []) c (omega (arith, length-append queue (f ∷ [])))
    ∙ rw (append_assoc queue (f ∷ []) fs) refl

offers-waits :
    (fs : List Frame) (c : Client Frame)
    → length (from_keyframe fs) ≤ max_queued_frames
    → offers fs (waits c)
      ≡ record c { queue = from_keyframe fs; awaiting_keyframe = is_empty (from_keyframe fs) }
unfolding offers offer enqueue
offers-waits [] c h = refl
offers-waits (f ∷ fs) c h = elim (Bool-cases f.keyframe) [
  | inl e ↦ simp (e, offers-flows fs (f ∷ []) c (ground arith))
  | inr e ↦ rw e (offers-waits fs c (ground arith))
]

-- A client that waits for a keyframe, over any broadcasts that meet no other step of its threads: if
-- there are at most `max_queued_frames` frames from the first keyframe on, its queue ends up as
-- exactly these frames in order, and it still waits just if there was no keyframe.
pub broadcast_frames-waits :
    {D : Type 0} (fs : List Frame) (s : Server Frame D) (i : ℕ) (c : Client Frame)
    → get_elem? s.clients i ≡ some (waits c)
    → length (from_keyframe fs) ≤ max_queued_frames
    → get_elem? (broadcast_frames fs s).clients i
      ≡ some
          (record c { queue = from_keyframe fs; awaiting_keyframe = is_empty (from_keyframe fs) })
broadcast_frames-waits fs s i c h l =
    get_elem?-broadcast_frames fs s i (waits c) h ∙ ap some (offers-waits fs c l)

-- Some client waits for a keyframe in the second list and not in the first.
abbrev pub newly_waits : List (Client Frame) → List (Client Frame) → Bool
newly_waits (c ∷ cs) (c' ∷ cs') =
    (not c.awaiting_keyframe && c'.awaiting_keyframe) || newly_waits cs cs'
newly_waits _ _ = false

offer-newly_waits :
    (n : ℕ) (k : Bool) (f : Frame) (c : Client Frame)
    → IsInStep n c
    → (offer k f c).1 ≡ (not c.awaiting_keyframe && (offer k f c).0.awaiting_keyframe)
unfolding offer enqueue
offer-newly_waits n k f c v = elim (Bool-cases c.awaiting_keyframe) [
  | inl e ↦ ground (arith, v.drained e)
  | inr e ↦ ground arith
]

offer_all-newly_waits :
    (n : ℕ) (k : Bool) (f : Frame) (cs : List (Client Frame))
    → All (IsInStep n) cs
    → (offer_all k f cs).1 ≡ newly_waits cs (offer_all k f cs).0
unfolding offer_all
offer_all-newly_waits n k f [] h = refl
offer_all-newly_waits n k f (c ∷ cs) h =
    rw (offer-newly_waits n k f c h.0, offer_all-newly_waits n k f cs h.1)

requests-offer_all :
    {D : Type 0} (k : Bool) (f : Frame) (s : Server Frame D) (cs : List (Client Frame))
    → s.clients ≡ cs
    → (broadcast_packet k f s).requests ≡ s.requests + (if (offer_all k f cs).1 then 1 else 0)
unfolding broadcast_packet offer_all
requests-offer_all k f s [] e = ground arith
requests-offer_all k f s (c ∷ cs) e = ground arith

-- With every client in step, a broadcast asks for a keyframe exactly once if it sets some client
-- waiting for one, and not at all otherwise.
pub requests-broadcast_packet :
    {D : Type 0} (n : ℕ) (k : Bool) (f : Frame) (s : Server Frame D)
    → All (IsInStep n) s.clients
    → (broadcast_packet k f s).requests
      ≡ s.requests + (if newly_waits s.clients (broadcast_packet k f s).clients then 1 else 0)
requests-broadcast_packet n k f s h = rw (
  requests-offer_all k f s s.clients refl,
  clients-broadcast_packet k f s s.clients refl,
  offer_all-newly_waits n k f s.clients h,
)
