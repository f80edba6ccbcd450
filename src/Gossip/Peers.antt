-- ===== src/Gossip/Peers.antt =====
-- internal/gossip/peer.go: the list of trusted peers. Saving the file succeeds here.
use kiss_protocol.Base.{
  ◌≡◌, ◌==◌, not, false, refl, Option, none, some, List, [], ◌∷◌, ◌++◌, Bytes, bytes_eq,
  bytes_eq_refl, length, if◌then◌else◌, Result, ok, err, All, All-append, arith, Bool-cases,
  Option-cases, subst, length-append, ◌⊎◌, inl, inr,
}

pub record Peer : Type 0 where
  pub label : Bytes
  pub addr : Bytes
  pub pub_key : Bytes

pub data PeerError : Type 0 where
  label_exists key_exists not_found : PeerError

-- The loop of `Add`, for its first hit.
unfoldable pub clash : Peer → List Peer → Option PeerError
clash p [] = none
clash p (e ∷ es) =
    if bytes_eq e.label p.label
    then some label_exists
    else if bytes_eq e.pub_key p.pub_key
    then some key_exists
    else clash p es

-- `Add`
unfoldable pub add_peer : Peer → List Peer → Result PeerError (List Peer)
add_peer p ps = elim (clash p ps) [ none ↦ ok (ps ++ p ∷ []) | some e ↦ err e ]

unfoldable pub without_label : Bytes → List Peer → List Peer
without_label label [] = []
without_label label (p ∷ ps) =
    let rest = without_label label ps in if not (bytes_eq p.label label) then p ∷ rest else rest

-- `Remove`
unfoldable pub remove_peer : Bytes → List Peer → Result PeerError (List Peer)
remove_peer label ps =
    let filtered = without_label label ps in
    if length filtered == length ps then err not_found else ok filtered

-- Two peers with no label and no key in common.
abbrev pub Apart : Peer → Peer → Type 0
Apart p q = (bytes_eq p.label q.label ≡ false) × (bytes_eq p.pub_key q.pub_key ≡ false)

abbrev pub AreDistinct : List Peer → Type 0
AreDistinct [] = Unit
AreDistinct (p ∷ ps) = All (λ (q : Peer). Apart p q) ps × AreDistinct ps

clash-none-Apart :
    (p e : Peer) (es : List Peer) → clash p (e ∷ es) ≡ none → Apart e p × (clash p es ≡ none)
unfolding clash
clash-none-Apart p e es h = ((ground arith, ground arith), ground arith)

distinct_with :
    (p : Peer) (ps : List Peer) → AreDistinct ps → clash p ps ≡ none → AreDistinct (ps ++ p ∷ [])
distinct_with p [] d h = (tt, tt)
distinct_with p (e ∷ es) d h =
    let (apart, rest) = clash-none-Apart p e es h in
    (All-append (λ (q : Peer). Apart e q) es (p ∷ []) d.0 (apart, tt), distinct_with p es d.1 rest)

without_label-all :
    (p : Peer) (ps : List Peer) → clash p ps ≡ none → without_label p.label (ps ++ p ∷ []) ≡ ps
unfolding without_label
without_label-all p [] h = rw (bytes_eq_refl p.label) refl
without_label-all p (e ∷ es) h =
    let (apart, rest) = clash-none-Apart p e es h in rw (apart.0, without_label-all p es rest) refl

without_label-Apart :
    (label : Bytes) (p : Peer) (ps : List Peer)
    → All (λ (q : Peer). Apart p q) ps
    → All (λ (q : Peer). Apart p q) (without_label label ps)
unfolding without_label
without_label-Apart label p [] h = tt
without_label-Apart label p (q ∷ qs) h = elim (Bool-cases (bytes_eq q.label label)) [
  | inl gone ↦ rw gone (without_label-Apart label p qs h.1)
  | inr kept ↦ rw kept (h.0, without_label-Apart label p qs h.1)
]

without_label-AreDistinct :
    (label : Bytes) (ps : List Peer) → AreDistinct ps → AreDistinct (without_label label ps)
unfolding without_label
without_label-AreDistinct label [] d = tt
without_label-AreDistinct label (p ∷ ps) d = elim (Bool-cases (bytes_eq p.label label)) [
  | inl gone ↦ rw gone (without_label-AreDistinct label ps d.1)
  | inr kept ↦ rw kept (without_label-Apart label p ps d.0, without_label-AreDistinct label ps d.1)
]

-- `Add` and `Remove` keep labels and keys without duplicates.
pub add_remove-AreDistinct :
    (ps : List Peer) (p : Peer) (label : Bytes) (qs : List Peer)
    → AreDistinct ps
    → (add_peer p ps ≡ ok qs) ⊎ (remove_peer label ps ≡ ok qs)
    → AreDistinct qs
unfolding add_peer remove_peer
add_remove-AreDistinct ps p label qs d (inl added) = elim (Option-cases (clash p ps)) [
  | inl fine ↦
      let same : ps ++ p ∷ [] ≡ qs = ground arith in
      subst AreDistinct same (distinct_with p ps d fine)
  | inr (e, bad) ↦ absurd (ground arith)
]
add_remove-AreDistinct ps p label qs d (inr removed) =
    let same : without_label label ps ≡ qs = ground arith in
    subst AreDistinct same (without_label-AreDistinct label ps d)

-- `Remove` takes back an `Add` that succeeded.
pub remove_peer-add_peer :
    (ps : List Peer) (p : Peer) (qs : List Peer)
    → add_peer p ps ≡ ok qs
    → remove_peer p.label qs ≡ ok ps
unfolding add_peer remove_peer
remove_peer-add_peer ps p qs h = elim (Option-cases (clash p ps)) [
  | inl fine ↦
      let same : ps ++ p ∷ [] ≡ qs = ground arith in
      subst (λ xs. remove_peer p.label xs ≡ ok ps) same
        (ground (arith, without_label-all p ps fine, length-append ps (p ∷ [])))
  | inr (e, bad) ↦ absurd (ground arith)
]
