-- ===== src/Engine/Address.antt =====
-- Which addresses a sequence uses: internal/engine/resolve.go. `learned` is what the probe loop knows
-- of the client's MAC (`LearnedMAC`).
use canarium.Engine.Sequence.{resolved_addr, ActiveSequence}
use canarium.Config.Types.{WakeConfig, ClientConfig}
use canarium.State.Types.{ResolvedAddr}
use canarium.Common.{not, String, Option, none, some, is_empty, if◌then◌else◌}

abbrev wake_mac : Option WakeConfig → String
wake_mac none = ""
wake_mac (some w) = w.mac

unfoldable pub client_mac : ClientConfig → String
client_mac c = if is_empty (wake_mac c.wake) then c.mac else wake_mac c.wake

-- What the sequence pinned for the client.
abbrev pub pinned_addr : Option ActiveSequence → String → Option ResolvedAddr
pinned_addr none client = none
pinned_addr (some a) client = resolved_addr client a

abbrev pinned_mac : Option ResolvedAddr → String
pinned_mac none = ""
pinned_mac (some r) = r.mac

abbrev pinned_ip : Option ResolvedAddr → String
pinned_ip none = ""
pinned_ip (some r) = r.ip

abbrev learned_or_none : Option String → String
learned_or_none none = ""
learned_or_none (some mac) = mac

unfoldable pub mac_for : Option String → Option ActiveSequence → ClientConfig → String
unfolding client_mac
mac_for learned a c =
    let pinned = pinned_mac (pinned_addr a c.name) in
    if not (is_empty (client_mac c))
    then client_mac c
    else if not (is_empty pinned)
    then pinned
    else learned_or_none learned

unfoldable pub address_for : Option ActiveSequence → ClientConfig → String
address_for a c =
    let pinned = pinned_ip (pinned_addr a c.name) in if is_empty pinned then c.address else pinned
