-- ===== src/Digest/Counters.antt =====
-- The counters of the slots of tools/honeycow_digest.py are dictionaries.
use mathlib.Core.Logic.{ite}
use honeycow.Prelude.{
  Option, none, some, List, [], ◌∷◌, Text, is_empty, All, Text_discrete, Bool-cases, inl, inr,
}
use honeycow.Dict.{get, put}
use honeycow.Dict.Laws.{Unique, bump-Unique}
use honeycow.Digest.{Event, Ufw, or_default}
use honeycow.Digest.Classify.{Family}
use honeycow.Digest.Slots.{
  Family-discrete, Counter, Slot, new_slot, slot, stamp, dns_slot, bump_present, ext_loop, http_ip,
  http_loop, ufw_port, ufw_loop,
}

-- No key occurs twice in a counter of a slot.
pub record IsSlot (s : Slot) : Type 0 where
  pub qtypes : Unique Text_discrete s.qtypes
  pub qclasses : Unique Text_discrete s.qclasses
  pub families : Unique Family-discrete s.families
  pub handlers : Unique Text_discrete s.handlers
  pub ufw_ports : Unique Text_discrete s.ufw_ports

abbrev pub AreSlots : List (Text × Slot) → Type 0
AreSlots b = All (λ (p : Text × Slot). IsSlot p.1) b

new_slot-IsSlot : IsSlot new_slot
new_slot-IsSlot = record {
  qtypes = tt;
  qclasses = tt;
  families = tt;
  handlers = tt;
  ufw_ports = tt;
}

pub ite_rule {ℓ κ ι} :
    {A : Type ℓ} {P : Type κ} (Q : A → Type ι) (dec : Dec P) (x y : A) → Q x → Q y → Q (ite dec x y)
ite_rule Q (yes p) x y a b = a
ite_rule Q (no n) x y a b = b

AreSlots-slot : (t : Text) (b : List (Text × Slot)) → AreSlots b → IsSlot (slot t b)
unfolding get
AreSlots-slot t [] a = new_slot-IsSlot
AreSlots-slot t ((s, v) ∷ b) a =
    ite_rule (λ o. IsSlot (or_default o new_slot)) (Text_discrete s t) (some v)
      (get Text_discrete t b) a.0 (AreSlots-slot t b a.1)

AreSlots-put :
    (t : Text) (v : Slot) (b : List (Text × Slot))
    → IsSlot v
    → AreSlots b
    → AreSlots (put Text_discrete t v b)
unfolding put
AreSlots-put t v [] h a = (h, tt)
AreSlots-put t v ((s, w) ∷ b) h a =
    ite_rule AreSlots (Text_discrete s t) ((t, v) ∷ b) ((s, w) ∷ put Text_discrete t v b) (h, a.1)
      (a.0, AreSlots-put t v b h a.1)

stamp-IsSlot : (ts : Option Text) (s : Slot) → IsSlot s → IsSlot (stamp ts s)
unfolding stamp
stamp-IsSlot none s h = h
stamp-IsSlot (some ts) s h = elim (Bool-cases (is_empty ts)) [
  | inl e ↦ rw e h
  | inr e ↦ rw e (record {
    qtypes = h.qtypes;
    qclasses = h.qclasses;
    families = h.families;
    handlers = h.handlers;
    ufw_ports = h.ufw_ports;
  })
]

bump_present-Unique :
    (o : Option Text) (c : Counter Text)
    → Unique Text_discrete c
    → Unique Text_discrete (bump_present o c)
unfolding bump_present
bump_present-Unique none c u = u
bump_present-Unique (some t) c u = elim (Bool-cases (is_empty t)) [
  | inl e ↦ rw e u
  | inr e ↦ rw e (bump-Unique Text_discrete t 1 c u)
]

pub ext_loop-AreSlots :
    (es : List Event) (b : List (Text × Slot)) (f : Counter Family)
    → AreSlots b
    → AreSlots (ext_loop es (b, f)).0
unfolding ext_loop dns_slot
ext_loop-AreSlots [] b f a = a
ext_loop-AreSlots (e ∷ es) b f a =
    let h = AreSlots-slot e.src_ip b a in
    ext_loop-AreSlots es _ _ (
      AreSlots-put e.src_ip _ b
        (stamp-IsSlot e.ts _ (record {
          qtypes = bump-Unique Text_discrete _ 1 _ h.qtypes;
          qclasses = bump-Unique Text_discrete _ 1 _ h.qclasses;
          families = bump-Unique Family-discrete _ 1 _ h.families;
          handlers = bump_present-Unique e.handler _ h.handlers;
          ufw_ports = h.ufw_ports;
        }))
        a)

pub http_loop-AreSlots :
    (es : List Event) (b : List (Text × Slot)) → AreSlots b → AreSlots (http_loop es b)
unfolding http_loop
http_loop-AreSlots [] b a = a
http_loop-AreSlots (e ∷ es) b a =
    let h = AreSlots-slot (http_ip e) b a in
    http_loop-AreSlots es _ (
      AreSlots-put (http_ip e) _ b
        (stamp-IsSlot e.ts _ (record {
          qtypes = h.qtypes;
          qclasses = h.qclasses;
          families = h.families;
          handlers = h.handlers;
          ufw_ports = h.ufw_ports;
        }))
        a)

pub ufw_loop-AreSlots :
    (us : List Ufw) (b : List (Text × Slot)) → AreSlots b → AreSlots (ufw_loop us b)
unfolding ufw_loop
ufw_loop-AreSlots [] b a = a
ufw_loop-AreSlots (u ∷ us) b a =
    let h = AreSlots-slot u.src b a in
    ufw_loop-AreSlots us _ (
      AreSlots-put u.src _ b
        (record {
          qtypes = h.qtypes;
          qclasses = h.qclasses;
          families = h.families;
          handlers = h.handlers;
          ufw_ports = bump_present-Unique (ufw_port u) _ h.ufw_ports;
        })
        a)
