-- ===== src/Nodus/Cluster/Replicas.antt =====
-- Whether the nodes of internal/nodus come to have the same bytes of a file.
use crom_spirit_iso.Prelude.{
  ℕ, ◌+◌, ◌≤◌, ◌<◌, ◌≡◌, ◌≢◌, ◌∙◌, ap, subst, sym, ◌==◌, false, some, List, [], ◌∷◌, ◌++◌, arith,
  true, map, length, get_elem?, set, sign_bit, get_elem?-append_right, get_elem?-map-append,
  get_elem?-set_self,
}
use mathlib.Core.List.{map-map}
use crom_spirit_iso.Prelude.Text.{Bytes}
use crom_spirit_iso.Nodus.Slice.{Slice}
use crom_spirit_iso.Nodus.Node.{contents, PeerId, Exchange, broadcast_file, file_parts, send_file}
use crom_spirit_iso.Nodus.Node.Parse.{IsWord}
use crom_spirit_iso.Nodus.Fuse.{File, write}
use crom_spirit_iso.Nodus.Fuse.Contents.{patched, contents-write}
use crom_spirit_iso.Nodus.System
use crom_spirit_iso.Nodus.System.{System, written, with_file, after_change, written_file}
use crom_spirit_iso.Nodus.System.Moves.{IsSound, file_inside}
use crom_spirit_iso.Nodus.System.Sound.{IsSoundIfAny}
use crom_spirit_iso.Nodus.Cluster.{
  Cluster, waiting, waiting_for, on_way, Event, at, goes, delivered, streamed, streamed_if,
  messages_of, sent_on, sent, sent_if, stepped, step, reached,
}
use crom_spirit_iso.Nodus.System.Grows.{IsOwn}
use crom_spirit_iso.Nodus.Cluster.Untouched.{SparesAt, reached-Stays}
use crom_spirit_iso.Nodus.Cluster.Pending.{Leaves, reached-pending}
use crom_spirit_iso.Nodus.Cluster.Delivery.{
  update_self, reached-IsSound, found_at, header_length, stored-delivered, found_at-stored,
}

module _ (sha256 : Bytes → Bytes) (limit : ℕ) where
  IsSound-reached :
      (es : List Event) (p : PeerId) (s : System)
      → (reached sha256 limit es).systems p ≡ some s
      → IsSound s
  IsSound-reached es p s runs = subst IsSoundIfAny runs (reached-IsSound sha256 limit es p)

  -- What a write at a node that runs leaves: the system, and the message for a connected peer behind
  -- those that were on the way, and behind those of the peers before it.
  after_written :
      (c : Cluster) (p q : PeerId) (s : System) (i : ℕ) (f : File) (before after : List PeerId)
      (offset : ℕ) (b : Bytes)
      → c.systems p ≡ some s
      → IsSound s
      → get_elem? s.files i ≡ some f
      → offset + length b ≤ limit
      → let c' = step sha256 limit c (at p (written (before ++ q ∷ after) i offset b)) in
        (r : System) × (g : File) × (c'.systems p ≡ some r)
        × (get_elem? r.files i ≡ some g)
        × (g.name ≡ f.name)
        × (contents r.node.arrays g.view ≡ patched offset b (contents s.node.arrays f.view))
        × (get_elem? c'.pending (length c.pending + length before)
            ≡ some (waiting p q g.name g.view))
  unfolding step System.step sent broadcast_file
  after_written c p q s i f before after offset b runs h there fits =
      let connected = before ++ q ∷ after in
      let e = written connected i offset b in
      let (r, succeeds, same, sends, new) =
        contents-write limit s.node f offset b
          (file_inside s.node h.own s.files i f h.files_inside there).0 fits in
      let s_r : System = record { node = r.0; files = set s.files i r.1 } in
      let moves : stepped sha256 limit (c.systems p) e ≡ some s_r =
        ap (λ o. stepped sha256 limit o e) runs
        ∙ ap (λ o. with_file s i o (λ g. written_file (write limit s.node g offset b))) there
        ∙ ap (λ o. after_change s i (written_file o)) succeeds in
      let messages : sent_if sha256 limit p (c.systems p) e
          ≡ map (λ r'. waiting_for p (r', r.3.0, r.3.1)) connected =
        ap (λ o. sent_if sha256 limit p o e) runs
        ∙ ap (sent_on sha256 limit p s connected offset b) there
        ∙ ap (messages_of p connected) succeeds
        ∙ map-map (waiting_for p) (λ r'. (r', r.3.0, r.3.1)) connected in
      (
        s_r,
        r.1,
        update_self p (stepped sha256 limit (c.systems p) e) c.systems ∙ moves,
        get_elem?-set_self s.files i r.1 f there,
        same,
        new,
        get_elem?-append_right c.pending (sent_if sha256 limit p (c.systems p) e) (length before)
            ∙ ap (λ ms. get_elem? ms (length before)) messages
            ∙ get_elem?-map-append (λ r'. waiting_for p (r', r.3.0, r.3.1)) before after q
            ∙ ap (λ o. some (waiting p q o.0 o.1)) sends,
      )

  -- A goroutine that runs puts the bytes on the way that its slice has then.
  after_goes :
      (c : Cluster) (k : ℕ) (p q : PeerId) (s : System) (name : Bytes) (t : Slice)
      → get_elem? c.pending k ≡ some (waiting p q name t)
      → c.systems p ≡ some s
      → get_elem? (step sha256 limit c (goes k true)).pending k
        ≡ some (on_way q (file_parts name (contents s.node.arrays t)))
  unfolding step send_file
  after_goes c k p q s name t there runs =
      ap (λ m. get_elem? (streamed_if c k true m).pending k) there
      ∙ get_elem?-set_self c.pending k (streamed (c.systems p) true q name t) (waiting p q name t)
          there
      ∙ ap (λ o. some (streamed o true q name t)) runs

  -- A write at a node reaches a connected peer: once the peer has the write's message, a lookup there
  -- finds the old bytes of the written file with the new ones over them. The write may come after any
  -- events, its goroutine may run after any further ones of which none is a write to that file at the
  -- node, and the message may arrive at any time after that, if its stream could be opened, it is not
  -- lost, the peer runs, and its first read returns just what announces the file. The name is not
  -- empty, is valid UTF-8 and has no white space, and the file fits the limit of memory and an int64.
  pub found_at-written :
      (es es' es'' : List Event) (p q : PeerId) (s s_p s' : System) (i k : ℕ) (f : File) (x : ℕ)
      (u new : Bytes) (before after : List PeerId) (offset : ℕ) (b : Bytes)
      (exchange : PeerId → Bytes → Exchange) (peers : List PeerId)
      → (reached sha256 limit es).systems p ≡ some s
      → get_elem? s.files i ≡ some f
      → f.name ≡ x ∷ u
      → IsWord (x ∷ u)
      → offset + length b ≤ limit
      → patched offset b (contents s.node.arrays f.view) ≡ new
      → length new < sign_bit
      → length new ≤ limit
      → header_length sha256 limit (x ∷ u) new ≤ 1024
      → length (reached sha256 limit es).pending + length before ≡ k
      → Leaves k es'
      → Leaves k es''
      → let w = at p (written (before ++ q ∷ after) i offset b) in
        let sent_events = es'' ++ goes k true ∷ (es' ++ w ∷ es) in
        (reached sha256 limit (es' ++ w ∷ es)).systems p ≡ some s_p
        → SparesAt sha256 limit p (x ∷ u) es' (w ∷ es)
        → (reached sha256 limit sent_events).systems q ≡ some s'
        → found_at sha256 limit exchange peers (x ∷ u) (
            (reached sha256 limit
                (delivered k (header_length sha256 limit (x ∷ u) new) ∷ sent_events)).systems
              q)
          ≡ some new
  unfolding reached
  found_at-written es es' es'' p q s s_p s' i k f x u new before after offset b exchange peers runs
        there name word fits is_new small room short place leaves leaves' runs_p spares runs' =
      let w = at p (written (before ++ q ∷ after) i offset b) in
      let c = reached sha256 limit es in
      let (r, g, runs_r, there_r, same, bytes_r, waits) =
        after_written c p q s i f before after offset b runs (IsSound-reached es p s runs) there
          fits in
      let h_r = IsSound-reached (w ∷ es) p r runs_r in
      let inside =
        subst (λ n. IsOwn r.node h_r.own n g.view) (same ∙ name)
          (file_inside r.node h_r.own r.files i g h_r.files_inside there_r) in
      let stays =
        reached-Stays sha256 limit p (x ∷ u) es' (w ∷ es) g.view r s_p h_r runs_r inside spares
          runs_p in
      let waits_at : get_elem? (reached sha256 limit (w ∷ es)).pending k
          ≡ some (waiting p q (x ∷ u) g.view) =
        ap (get_elem? (reached sha256 limit (w ∷ es)).pending) (sym place)
        ∙ waits
        ∙ ap (λ n. some (waiting p q n g.view)) (same ∙ name) in
      let went_at : get_elem? (reached sha256 limit (goes k true ∷ (es' ++ w ∷ es))).pending k
          ≡ some (on_way q (file_parts (x ∷ u) new)) =
        after_goes (reached sha256 limit (es' ++ w ∷ es)) k p q s_p (x ∷ u) g.view
          (reached-pending sha256 limit es' (w ∷ es) k _ leaves waits_at) runs_p
        ∙ ap (λ bytes. some (on_way q (file_parts (x ∷ u) bytes))) (stays.2 ∙ bytes_r ∙ is_new) in
      let sent_events = es'' ++ goes k true ∷ (es' ++ w ∷ es) in
      found_at-stored sha256 limit s' _ (x ∷ u) new exchange peers
        (IsSound-reached sent_events q s' runs')
        (stored-delivered sha256 limit (reached sha256 limit sent_events) k q s' x u new
          (reached-pending sha256 limit es'' (goes k true ∷ (es' ++ w ∷ es)) k _ leaves' went_at)
          runs' word small room short)

  -- A message for a name, with bytes that fit, on the way to a peer.
  abbrev pub IsOnWay : Cluster → ℕ → PeerId → Bytes → Bytes → Type 0
  IsOnWay c i q name content =
      (get_elem? c.pending i ≡ some (on_way q (file_parts name content)))
      × (length content < sign_bit)
      × (length content ≤ limit)
      × (header_length sha256 limit name content ≤ 1024)

  -- After two messages for one name, the one that arrived last counts.
  found_at-later :
      (es : List Event) (q : PeerId) (s : System) (i j x : ℕ) (t a b : Bytes)
      (exchange : PeerId → Bytes → Exchange) (peers : List PeerId)
      → (reached sha256 limit es).systems q ≡ some s
      → IsWord (x ∷ t)
      → i ≢ j
      → IsOnWay (reached sha256 limit es) i q (x ∷ t) a
      → IsOnWay (reached sha256 limit es) j q (x ∷ t) b
      → found_at sha256 limit exchange peers (x ∷ t) (
          (reached sha256 limit (
              delivered j (header_length sha256 limit (x ∷ t) b)
              ∷ delivered i (header_length sha256 limit (x ∷ t) a)
              ∷ es)).systems
            q)
        ≡ some b
  unfolding reached
  found_at-later es q s i j x t a b exchange peers runs word distinct (at_i, small, room, short)
        (at_j, small', room', short') =
      let first = delivered i (header_length sha256 limit (x ∷ t) a) in
      let c = reached sha256 limit es in
      let runs' = stored-delivered sha256 limit c i q s x t a at_i runs word small room short in
      let other : (i == j) ≡ false = ground (arith, distinct) in
      let at_j' =
        reached-pending sha256 limit (first ∷ []) es j (on_way q (file_parts (x ∷ t) b)) (other, tt)
          at_j in
      found_at-stored sha256 limit _ _ (x ∷ t) b exchange peers
        (IsSound-reached (first ∷ es) q _ runs')
        (stored-delivered sha256 limit (reached sha256 limit (first ∷ es)) j q _ x t b at_j' runs'
          word small' room' short')

  -- Of two messages on the way to a peer that runs, for one name, the one that arrives last gives the
  -- bytes that a lookup there finds, in whichever order they were sent: the other order leaves the
  -- other bytes. The name is not empty, is valid UTF-8 and has no white space, both files fit the
  -- limit of memory and an int64, and the first read of each message returns just what announces the
  -- file.
  pub found_at-order :
      (es : List Event) (q : PeerId) (s : System) (i j x : ℕ) (t a b : Bytes)
      (exchange : PeerId → Bytes → Exchange) (peers : List PeerId)
      → (reached sha256 limit es).systems q ≡ some s
      → IsWord (x ∷ t)
      → i ≢ j
      → IsOnWay (reached sha256 limit es) i q (x ∷ t) a
      → IsOnWay (reached sha256 limit es) j q (x ∷ t) b
      → let d_i = delivered i (header_length sha256 limit (x ∷ t) a) in
        let d_j = delivered j (header_length sha256 limit (x ∷ t) b) in
        (found_at sha256 limit exchange peers
            (x ∷ t)
            ((reached sha256 limit (d_j ∷ d_i ∷ es)).systems q)
          ≡ some b)
        × (found_at sha256 limit exchange peers
              (x ∷ t)
              ((reached sha256 limit (d_i ∷ d_j ∷ es)).systems q)
            ≡ some a)
  found_at-order es q s i j x t a b exchange peers runs word distinct way_i way_j = (
    found_at-later es q s i j x t a b exchange peers runs word distinct way_i way_j,
    found_at-later es q s j i x t b a exchange peers runs word (λ e. distinct (sym e)) way_j way_i,
  )
