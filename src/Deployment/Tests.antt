-- ===== src/Deployment/Tests.antt =====
-- Tests of the model of scripts/verify_deployment.py on small inputs.
mod Process
mod Streams
mod Finish
