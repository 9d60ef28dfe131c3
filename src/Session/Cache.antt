-- ===== src/Session/Cache.antt =====
-- The queries that two pages share in the cache of the application: one key, and the calls of the pages.
use socblitz.Common.{◌≡◌, ◌≢◌, refl}
use socblitz.Ui.{Query}
use socblitz.Agents
use socblitz.Connectors
use socblitz.Forensics
use socblitz.Forensics.{Forensics}
use socblitz.Layout
use socblitz.Posture.Overview

-- two queries share a place in the cache and ask for the same
abbrev pub Agree : Query → Query → Type 0
Agree q r = (q.key ≡ r.key) × (q.call ≡ r.call)

-- The overview shares the connectors with their page and the alert figures with the frame of the pages, and
-- the agent page shares the command that enrolls an agent with the forensics page: under one key the two
-- pages of each make the same call. The agents are an exception: the overview and the agent page have one
-- key for them and make different calls.
pub shared_keys :
    (p : Forensics)
    → Agree Overview.connectors_query Connectors.connectors_query
      × Agree Overview.stats_query Layout.stats_query
      × Agree Agents.deploy_query (Forensics.deploy_query p)
      × (Overview.agents_query.key ≡ Agents.agents_query.key)
      × (Overview.agents_query.call ≢ Agents.agents_query.call)
unfolding Overview.connectors_query Connectors.connectors_query Overview.stats_query
    Layout.stats_query Agents.deploy_query Forensics.deploy_query Overview.agents_query
    Agents.agents_query
shared_keys p = ((refl, refl), (refl, refl), (refl, refl), refl, λ e. cc e)
