-- ===== src/Engine/Derived/Threat.antt =====
-- When a client is threatened (internal/engine/derived.go).
use canarium.Config.Types.{ClientConfig}
use canarium.Engine.Derived.{
  feed_threatened, client_feeds, feeds_threatened, client_threatened, any_feed, all_feeds,
}
use canarium.Facts.Types.{
  definite_true, definite_false, is_false, is_true, is_unavailable, Trilean, or, and,
}
use canarium.Facts.Store.{Store}
use canarium.Common.{
  String, Bool, true, false, ◌||◌, ◌&&◌, List, [], ◌∷◌, same, is_nil, ◌≡◌, refl, arith,
  if◌then◌else◌,
}

-- Kleene's conjunction and disjunction over the feeds, without a cut.
abbrev pub every_feed : Store → List String → Trilean
every_feed s [] = definite_true
every_feed s (feed ∷ feeds) = and (feed_threatened s feed) (every_feed s feeds)

abbrev pub some_feed : Store → List String → Trilean
some_feed s [] = definite_false
some_feed s (feed ∷ feeds) = or (feed_threatened s feed) (some_feed s feeds)

and-steps :
    (r v m : Trilean) → (if is_false (and r v) then and r v else and (and r v) m) ≡ and r (and v m)
unfolding and
and-steps r v m = ground arith

or-steps : (r v m : Trilean) → (if is_true (or r v) then or r v else or (or r v) m) ≡ or r (or v m)
unfolding or
or-steps r v m = ground arith

all_feeds-every_feed :
    (s : Store) (r : Trilean) (feeds : List String)
    → all_feeds s r feeds ≡ and r (every_feed s feeds)
unfolding all_feeds and
all_feeds-every_feed s r [] = ground arith
all_feeds-every_feed s r (feed ∷ feeds) = ground (
  arith,
  all_feeds-every_feed s (and r (feed_threatened s feed)) feeds,
  and-steps r (feed_threatened s feed) (every_feed s feeds),
)

any_feed-some_feed :
    (s : Store) (r : Trilean) (feeds : List String) → any_feed s r feeds ≡ or r (some_feed s feeds)
unfolding any_feed or
any_feed-some_feed s r [] = ground arith
any_feed-some_feed s r (feed ∷ feeds) = ground (
  arith,
  any_feed-some_feed s (or r (feed_threatened s feed)) feeds,
  or-steps r (feed_threatened s feed) (some_feed s feeds),
)

-- A client with feeds is threatened as Kleene's logic has it: under `feed_policy: all` if every feed
-- is, else if some feed is; where that is unavailable, exactly if the client assumes the
-- worst of a loss of communication.
pub client_threatened_lem :
    (sources : List String) (s : Store) (c : ClientConfig)
    → is_nil (client_feeds sources c) ≡ false
    → client_threatened sources s c ≡ (
        let told =
          if same c.feed_policy "all"
          then every_feed s (client_feeds sources c)
          else some_feed s (client_feeds sources c) in
        is_true told || is_unavailable told && same c.comms_loss_assumes "threatened")
unfolding client_threatened feeds_threatened and or
client_threatened_lem sources s c w =
    let feeds = client_feeds sources c in
    ground
      (arith, all_feeds-every_feed s definite_true feeds, any_feed-some_feed s definite_false feeds)

-- Some feed is known to be threatened.
abbrev pub known_threat : Store → List String → Bool
known_threat s [] = false
known_threat s (feed ∷ feeds) = is_true (feed_threatened s feed) || known_threat s feeds

every_feed-known_threat :
    (s : Store) (feeds : List String)
    → is_nil feeds ≡ false
    → is_true (every_feed s feeds) ≡ true
    → known_threat s feeds ≡ true
unfolding and
every_feed-known_threat s [] w u = ground arith
every_feed-known_threat s (feed ∷ feeds) w u = ground arith

some_feed-known_threat :
    (s : Store) (feeds : List String) → is_true (some_feed s feeds) ≡ known_threat s feeds
unfolding or
some_feed-known_threat s [] = refl
some_feed-known_threat s (feed ∷ feeds) = ground (arith, some_feed-known_threat s feeds)

-- A client that does not ask for it is never threatened by silence: it is so only if the reading of
-- one of its feeds is good and says so.
silence_threatens_nobody :
    (sources : List String) (s : Store) (c : ClientConfig)
    → same c.comms_loss_assumes "threatened" ≡ false
    → client_threatened sources s c ≡ true
    → known_threat s (client_feeds sources c) ≡ true
unfolding client_threatened
silence_threatens_nobody sources s c w u =
    let feeds = client_feeds sources c in
    ground (
      arith,
      client_threatened_lem sources s c,
      every_feed-known_threat s feeds,
      some_feed-known_threat s feeds,
    )
