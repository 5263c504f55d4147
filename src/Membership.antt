-- ===== src/Membership.antt =====
-- Who is in the cluster: membership/peer.py, membership/peer_table.py and membership/handlers.py.
pub mod PeerTable
pub mod Handlers
