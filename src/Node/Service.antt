-- ===== src/Node/Service.antt =====
-- The assembly of the node's services, `node/src/service.rs`. What the Substrate client does is not
-- code of this repository: a call of it is an effect, an entry of the trace, and whether it fails,
-- by itself and told by the number of the call, is the parameter `outcome` of the model. What the code decides is kept: which calls are made, in which
-- order, with which settings and with which objects of earlier calls, and where an error ends them.
pub mod Types
pub mod Partial
pub mod Full
pub mod Light
pub mod Laws
pub mod Script
pub mod Carried
