-- ===== src/Monitor/Forwarder/Matching.antt =====
-- A client reaches the follower of its dialogue, whichever of the two comes first.

use c_playground.Common.{
  ℕ, ◌+◌, ◌≤◌, ◌≡◌, refl, sym, ap, ◌∙◌, List, [], ◌∷◌, ◌++◌, All, Option, none, some, true, false,
  Bool-cases, inl, inr, ltb, le→ltb, lt→ltb, ◌<◌, ◌==◌, eq→==, if◌then◌else◌, if_intro,
}
use c_playground.Common.Int.{ℤ, pos, negsuc}
use c_playground.Monitor.Forwarder.{
  Client, Follower, Forwarder, is_same, expired_threshold, no_dialogue, find_follower,
  insert_unless, accept_follower, set_dialogue, publish_client, stays, match_client,
  publish_matched, notify_found, handle_notify, find_waiting, publish_waiting, peek_header,
}

is_same_self : (d : ℤ) → is_same d d ≡ true
is_same_self (pos n) = eq→== n n refl
is_same_self (negsuc n) = eq→== n n refl

-- No follower waits for the dialogue, and no client of it does.
abbrev pub IsFree : ℤ → Forwarder → Type 0
IsFree d s =
    All (λ f. is_same f.dialogue d ≡ false) s.followers
    × All (λ c. is_same c.dialogue d ≡ false) s.clients

find_waiting-none :
    (d : ℤ) (fs : List Follower)
    → All (λ f. is_same f.dialogue d ≡ false) fs
    → find_waiting d fs ≡ none
unfolding find_waiting
find_waiting-none d [] v = refl
find_waiting-none d (f ∷ fs) v = rw v.0 (find_waiting-none d fs v.1)

match_client-none :
    (now : ℕ) (d : ℤ) (cs : List Client)
    → All (λ c. is_same c.dialogue d ≡ false) cs
    → (match_client now d cs).0 ≡ none
unfolding match_client stays
match_client-none now d [] v = refl
match_client-none now d (c ∷ cs) v =
    if_intro (λ (p : Option Client × List Client). p.0 ≡ none)
      (ltb (c.timestamp + expired_threshold) now) (λ q. match_client-none now d cs v.1)
      (λ q.
        if_intro (λ (p : Option Client × List Client). p.0 ≡ none) (is_same c.dialogue d)
          (λ e. cc (e, v.0)) (λ e. match_client-none now d cs v.1))

-- The follower that was told of the dialogue is the one that waits for it.
find_waiting-set_dialogue :
    (pid : ℕ) (d : ℤ) (fs : List Follower) (f : Follower)
    → find_follower pid fs ≡ some f
    → All (λ g. is_same g.dialogue d ≡ false) fs
    → find_waiting d (set_dialogue pid d fs) ≡ some (record f { dialogue = d })
unfolding find_waiting set_dialogue find_follower
find_waiting-set_dialogue pid d [] f e v = cc e
find_waiting-set_dialogue pid d (g ∷ fs) f e v = elim (Bool-cases (g.pid == pid)) [
  | inl q ↦
      let first : some g ≡ some f =
        ap (λ b. if b then some g else find_follower pid fs) (sym q) ∙ e in
      let same : g ≡ f = cc first in
      ap
        (λ b.
          find_waiting d (if b then record g { dialogue = d } ∷ fs else g ∷ set_dialogue pid d fs))
        q
      ∙ ap (λ b. if b then some (record g { dialogue = d }) else find_waiting d fs) (is_same_self d)
      ∙ ap (λ (h : Follower). some (record h { dialogue = d })) same
  | inr q ↦
      let rest : find_follower pid fs ≡ some f =
        ap (λ b. if b then some g else find_follower pid fs) (sym q) ∙ e in
      ap
        (λ b.
          find_waiting d (if b then record g { dialogue = d } ∷ fs else g ∷ set_dialogue pid d fs))
        q
      ∙ ap (λ b. if b then some g else find_waiting d (set_dialogue pid d fs)) v.0
      ∙ find_waiting-set_dialogue pid d fs f rest v.1
]

publish_matched-none :
    (f : Follower) (m : Option Client × List Client) (s : Forwarder)
    → m.0 ≡ none
    → publish_matched f m s ≡ record s { clients = m.1 }
unfolding publish_matched
publish_matched-none f (none, cs) s e = refl
publish_matched-none f (some c, cs) s e = cc e

-- A follower that is told of a dialogue gets the client of that dialogue, and the client's descriptor is
-- closed here, whether the client comes first and the notice while it has not expired, or the notice
-- first, if no other client is of the dialogue and no other follower waits for it.
pub handle_notify-peek_header :
    (s : Forwarder) (f : Follower) (d : ℤ) (fd now later : ℕ)
    → find_follower f.pid s.followers ≡ some f
    → IsFree d s
    → later ≤ now + expired_threshold
    → ((handle_notify later f.pid d (peek_header now fd d s)).sent ≡ s.sent ++ (f.fd, fd) ∷ [])
      × ((handle_notify later f.pid d (peek_header now fd d s)).closed ≡ s.closed ++ fd ∷ [])
      × ((peek_header later fd d (handle_notify now f.pid d s)).sent ≡ s.sent ++ (f.fd, fd) ∷ [])
      × ((peek_header later fd d (handle_notify now f.pid d s)).closed ≡ s.closed ++ fd ∷ [])
unfolding handle_notify notify_found publish_matched peek_header publish_waiting match_client
handle_notify-peek_header s f d fd now later e v h = (
  ap (λ (t : Forwarder). t.sent) first,
  ap (λ (t : Forwarder). t.closed) first,
  ap (λ (t : Forwarder). t.sent) second,
  ap (λ (t : Forwarder). t.closed) second,
)
  where
    c : Client
    c = record { fd = fd; dialogue = d; timestamp = now }

    kept : peek_header now fd d s ≡ record s { clients = c ∷ s.clients }
    kept = ap (λ w. publish_waiting w c s) (find_waiting-none d s.followers v.0) ∙ (refl)

    matched : match_client later d (c ∷ s.clients) ≡ (some c, s.clients)
    matched = rw (le→ltb (now + expired_threshold) later h, is_same_self d) refl

    told : Forwarder
    told = record s { followers = set_dialogue f.pid d s.followers }

    first :
        handle_notify later f.pid d (peek_header now fd d s)
        ≡ publish_client f fd (record told { clients = s.clients })
    first =
        ap (handle_notify later f.pid d) kept
        ∙ (ap (λ g. notify_found g later d (record s { clients = c ∷ s.clients })) e)
        ∙ (ap (λ m. publish_matched f m (record told { clients = c ∷ s.clients })) matched)
        ∙ (refl)

    left : Forwarder
    left = record told { clients = (match_client now d s.clients).1 }

    waiting : handle_notify now f.pid d s ≡ left
    waiting =
        (ap (λ g. notify_found g now d s) e)
        ∙ (publish_matched-none f (match_client now d s.clients) told
            (match_client-none now d s.clients v.1))

    second :
        peek_header later fd d (handle_notify now f.pid d s)
        ≡ publish_client (record f { dialogue = d }) fd left
    second =
        ap (peek_header later fd d) waiting
        ∙ (ap (λ w. publish_waiting w (record { fd = fd; dialogue = d; timestamp = later }) left)
            (find_waiting-set_dialogue f.pid d s.followers f e v.0))
        ∙ (refl)

match_client-expired :
    (now : ℕ) (d : ℤ) (cs : List Client)
    → All (λ c. c.timestamp + expired_threshold < now) cs
    → match_client now d cs ≡ (none, [])
unfolding match_client
match_client-expired now d [] v = refl
match_client-expired now d (c ∷ cs) v =
    ap
      (λ b.
        if b
        then match_client now d cs
        else if is_same c.dialogue d
        then (some c, cs)
        else stays c (match_client now d cs))
      (lt→ltb (c.timestamp + expired_threshold) now v.0)
    ∙ match_client-expired now d cs v.1

-- When every client has expired, a notice from a known follower drops them all, and closes none of
-- their descriptors.
pub handle_notify_expired :
    (s : Forwarder) (pid : ℕ) (f : Follower) (d : ℤ) (now : ℕ)
    → find_follower pid s.followers ≡ some f
    → All (λ c. c.timestamp + expired_threshold < now) s.clients
    → ((handle_notify now pid d s).clients ≡ [])
      × ((handle_notify now pid d s).closed ≡ s.closed)
      × ((handle_notify now pid d s).sent ≡ s.sent)
unfolding handle_notify notify_found publish_matched
handle_notify_expired s pid f d now e v = (
  ap (λ (t : Forwarder). t.clients) dropped,
  ap (λ (t : Forwarder). t.closed) dropped,
  ap (λ (t : Forwarder). t.sent) dropped,
)
  where
    told : Forwarder
    told = record s { followers = set_dialogue f.pid d s.followers }

    dropped : handle_notify now pid d s ≡ record told { clients = [] }
    dropped =
        ap (λ g. notify_found g now d s) e
        ∙ ap (λ m. publish_matched f m told) (match_client-expired now d s.clients v)

-- A follower that is accepted as the only one, and that no notice has come from, gets any client whose header has
-- the dialogue -1.
pub accept_follower-peek_header :
    (s : Forwarder) (pid at fd now : ℕ)
    → s.followers ≡ []
    → (peek_header now fd no_dialogue (accept_follower at pid s)).sent ≡ s.sent ++ (at, fd) ∷ []
accept_follower-peek_header s pid at fd now e =
    ap
      (λ fs.
        (peek_header now fd no_dialogue
          (accept_follower at pid (record s { followers = fs }))).sent)
      e
    ∙ (unfold peek_header accept_follower find_follower insert_unless find_waiting publish_waiting
          publish_client in
        refl)
