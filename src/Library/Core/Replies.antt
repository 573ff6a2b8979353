-- ===== src/Library/Core/Replies.antt =====
-- From replies that match to what the functions of sim/linux_sim.c returned.
use pcie_sim.Base.{ℕ, ◌≡◌, Option, none, some, ◌>>=◌, ap}
use pcie_sim.Api.{Error, Stats}
use pcie_sim.Sim.Linux.{Timespec, Sim}
use pcie_sim.Sim.Linux.Calls.{View, Reply, opened, done, transferred, stats}
use pcie_sim.Sim.Linux.Represents.{Represents}
use pcie_sim.Sim.Linux.Refine.{Match}

-- What a reply holds.
abbrev code_of : Reply → Error
code_of (opened e h) = e
code_of (done e) = e
code_of (transferred e asked latency) = e
code_of (stats e s) = e

abbrev handle_of : Reply → Option ℕ
handle_of (opened e h) = h
handle_of _ = none

abbrev latency_of : Reply → Option ℕ
latency_of (transferred e asked latency) = latency
latency_of _ = none

abbrev stats_in : Reply → Option Stats
stats_in (stats e s) = s
stats_in _ = none

-- From a match of replies to what the function of the backend returned.
pub done_matched :
    (r : Option (Sim × Error)) (view' : View) (e : Error)
    → Match (r >>= (λ (sim', e'). some (sim', done e'))) (some (view', done e))
    → (sim' : Sim) × (r ≡ some (sim', e)) × Represents sim' view'
done_matched none view' e m = absurd m
done_matched (some (sim', e')) view' e (r, q) = (sim', ap (λ x. some (sim', code_of x)) q, r)

pub opened_matched :
    (r : Option (Sim × Error × Option ℕ)) (view' : View) (e : Error) (h : Option ℕ)
    → Match (r >>= (λ (sim', e', h'). some (sim', opened e' h'))) (some (view', opened e h))
    → (sim' : Sim) × (r ≡ some (sim', e, h)) × Represents sim' view'
opened_matched none view' e h m = absurd m
opened_matched (some (sim', e', h')) view' e h (r, q) =
    (sim', ap (λ x. some (sim', code_of x, handle_of x)) q, r)

pub stats_matched :
    (sim : Sim) (r : Option (Error × Option Stats)) (view' : View) (e : Error) (s : Option Stats)
    → Match (r >>= (λ (e', s'). some (sim, stats e' s'))) (some (view', stats e s))
    → (r ≡ some (e, s)) × Represents sim view'
stats_matched sim none view' e s m = absurd m
stats_matched sim (some (e', s')) view' e s (r, q) = (ap (λ x. some (code_of x, stats_in x)) q, r)

pub transferred_matched :
    (r : Option (Sim × Error × Option Timespec × Option ℕ)) (view' : View) (e : Error)
    (asked : Option Timespec) (latency : Option ℕ)
    → Match
        (r >>= (λ (sim', e', asked', latency'). some (sim', transferred e' asked' latency')))
        (some (view', transferred e asked latency))
    → (sim' : Sim) × (asked' : Option Timespec) × (r ≡ some (sim', e, asked', latency))
      × Represents sim' view'
transferred_matched none view' e asked latency m = absurd m
transferred_matched (some (sim', e', asked', latency')) view' e asked latency (r, q) =
    (sim', asked', ap (λ x. some (sim', code_of x, asked', latency_of x)) q, r)
