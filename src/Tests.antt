-- ===== src/Tests.antt =====
-- Runs of the model on small inputs, and the properties applied to them.
mod Setup
mod Texts
mod Updates
mod Serving
mod Secure
mod Starting
mod Dynamo
mod Tables
mod Following
mod Concurrent
