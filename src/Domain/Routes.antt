-- ===== src/Domain/Routes.antt =====
-- domain.rs: `RoutePolicy`, which application goes where, and its validation.
use route_deck.Prelude.{ℕ, Option, List, ℕ_discrete}
use route_deck.Text.{Text}

pub data DefaultRoute : Type 0 where
  direct vpn : DefaultRoute

pub data AppRouteAction : Type 0 where
  direct vpn : AppRouteAction

unfoldable pub AppRouteAction-discrete : Discrete AppRouteAction
AppRouteAction-discrete = hlevel

pub data AppMatchBy : Type 0 where
  path name : AppMatchBy

pub record AppRoute : Type 0 where
  pub process_path : Text
  pub process_name : Option Text
  pub match_by : AppMatchBy
  pub action : AppRouteAction

pub data LanPolicy : Type 0 where
  direct follow_default : LanPolicy

pub data Ipv6Policy : Type 0 where
  enabled disabled : Ipv6Policy

pub data DnsPolicy : Type 0 where
  vpn current_network : DnsPolicy

pub record RoutePolicy : Type 0 where
  pub default : DefaultRoute
  pub apps : List AppRoute
  pub lan : LanPolicy
  pub ipv6 : Ipv6Policy
  pub dns : DnsPolicy

-- The derived equality.
unfoldable pub RoutePolicy-discrete : Discrete RoutePolicy
RoutePolicy-discrete = hlevel ℕ_discrete

abbrev pub max_app_rules : ℕ
max_app_rules = 512
