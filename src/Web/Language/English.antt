-- ===== src/Web/Language/English.antt =====
-- The English texts of internal/web/i18n.go, under their keys; a letter is its code point.
use namedor.Common.{List, [], ◌∷◌}
use namedor.Text.{Text, codes}

unfoldable pub english : List (Text × Text)
english =
    (codes "GeoDNS Admin", codes "GeoDNS Admin")
    ∷ (codes "Logout", codes "Logout")
    ∷ (codes "DNS Zones", codes "DNS Zones")
    ∷ (codes "Templates", codes "Templates")
    ∷ (codes "DNS Templates", codes "DNS Templates")
    ∷ (codes "Query Logs", codes "Query Logs")
    ∷ (codes "Loading...", codes "Loading...")
    ∷ (codes "+ New Zone", codes "+ New Zone")
    ∷ (codes "+ New Template", codes "+ New Template")
    ∷ (codes "Query logs viewer coming soon...", codes "Query logs viewer coming soon...")
    ∷ (codes "Cancel", codes "Cancel")
    ∷ (codes "EN", codes "EN")
    ∷ (codes "RU", codes "RU")
    ∷ (codes "Username", codes "Username")
    ∷ (codes "Password", codes "Password")
    ∷ (codes "Login", codes "Login")
    ∷ (codes "Invalid username or password", codes "Invalid username or password")
    ∷ (codes "Zone Name", codes "Zone Name")
    ∷ (codes "Records", codes "Records")
    ∷ (codes "Actions", codes "Actions")
    ∷ (
      codes "No zones found. Create your first zone!",
      codes "No zones found. Create your first zone!",
    )
    ∷ (codes "View Records", codes "View Records")
    ∷ (codes "Delete", codes "Delete")
    ∷ (codes "Delete zone %s?", codes "Delete zone %s?")
    ∷ (codes "Create New Zone", codes "Create New Zone")
    ∷ (codes "Create", codes "Create")
    ∷ (codes "Zone name is required", codes "Zone name is required")
    ∷ (codes "Error creating zone: %s", codes "Error creating zone: %s")
    ∷ (codes "Invalid zone ID", codes "Invalid zone ID")
    ∷ (codes "Zone not found", codes "Zone not found")
    ∷ (codes "Error loading records", codes "Error loading records")
    ∷ (codes "Error loading templates", codes "Error loading templates")
    ∷ (codes "Error loading zones", codes "Error loading zones")
    ∷ (codes "Error deleting zone", codes "Error deleting zone")
    ∷ (codes "← Back to Zones", codes "← Back to Zones")
    ∷ (codes "Records for %s", codes "Records for %s")
    ∷ (codes "+ Add Record", codes "+ Add Record")
    ∷ (codes "📋 Apply Template", codes "📋 Apply Template")
    ∷ (
      codes "No records found. Add your first record!",
      codes "No records found. Add your first record!",
    )
    ∷ (codes "Name", codes "Name")
    ∷ (codes "Type", codes "Type")
    ∷ (codes "TTL", codes "TTL")
    ∷ (codes "GeoIP", codes "GeoIP")
    ∷ (codes "Data", codes "Data")
    ∷ (codes "Edit", codes "Edit")
    ∷ (codes "Delete this record?", codes "Delete this record?")
    ∷ (codes "Add New Record", codes "Add New Record")
    ∷ (codes "TTL (seconds)", codes "TTL (seconds)")
    ∷ (codes "Data (IP/Value)", codes "Data (IP/Value)")
    ∷ (codes "GeoIP Targeting (optional)", codes "GeoIP Targeting (optional)")
    ∷ (codes "Use '@' for zone apex", codes "Use '@' for zone apex")
    ∷ (codes "Country Code", codes "Country Code")
    ∷ (codes "Continent Code", codes "Continent Code")
    ∷ (codes "ASN", codes "ASN")
    ∷ (codes "Subnet", codes "Subnet")
    ∷ (codes "Add Record", codes "Add Record")
    ∷ (codes "Name, type, and data are required", codes "Name, type, and data are required")
    ∷ (codes "Error creating record set: %s", codes "Error creating record set: %s")
    ∷ (codes "Error creating record: %s", codes "Error creating record: %s")
    ∷ (codes "Error deleting record", codes "Error deleting record")
    ∷ (codes "Template Name", codes "Template Name")
    ∷ (codes "Description", codes "Description")
    ∷ (
      codes "No templates found. Create your first template!",
      codes "No templates found. Create your first template!",
    )
    ∷ (codes "View", codes "View")
    ∷ (codes "Delete template '%s'?", codes "Delete template '%s'?")
    ∷ (codes "Create New Template", codes "Create New Template")
    ∷ (codes "Create Template", codes "Create Template")
    ∷ (codes "Template name is required", codes "Template name is required")
    ∷ (codes "Error creating template: %s", codes "Error creating template: %s")
    ∷ (codes "Brief description of this template", codes "Brief description of this template")
    ∷ (codes "Invalid template ID", codes "Invalid template ID")
    ∷ (codes "Template not found", codes "Template not found")
    ∷ (codes "Template Records", codes "Template Records")
    ∷ (codes "No records in this template.", codes "No records in this template.")
    ∷ (codes "Country: %s", codes "Country: %s")
    ∷ (codes "Continent: %s", codes "Continent: %s")
    ∷ (codes "ASN: %d", codes "ASN: %d")
    ∷ (codes "Subnet: %s", codes "Subnet: %s")
    ∷ (codes "Edit Template: %s", codes "Edit Template: %s")
    ∷ (codes "Update Template", codes "Update Template")
    ∷ (
      codes "No records yet. Add records to this template.",
      codes "No records yet. Add records to this template.",
    )
    ∷ (codes "Error updating template: %s", codes "Error updating template: %s")
    ∷ (codes "Error deleting template", codes "Error deleting template")
    ∷ (codes "Add Template Record", codes "Add Template Record")
    ∷ (
      codes
          "Use placeholders: <code>{domain}</code> for zone name, <code>{subdomain}</code> for custom names",
      codes
          "Use placeholders: <code>{domain}</code> for zone name, <code>{subdomain}</code> for custom names",
    )
    ∷ (codes "Name (supports placeholders)", codes "Name (supports placeholders)")
    ∷ (codes "Data (supports placeholders)", codes "Data (supports placeholders)")
    ∷ (codes "Apply Template", codes "Apply Template")
    ∷ (codes "Zone: %s", codes "Zone: %s")
    ∷ (codes "This will create %d records:", codes "This will create %d records:")
    ∷ (codes "Template Placeholders Guide", codes "Template Placeholders Guide")
    ∷ (codes "Use", codes "Use")
    ∷ (
      codes
          "in Name and Data fields - it will be replaced with the actual domain when applying the template",
      codes
          "in Name and Data fields - it will be replaced with the actual domain when applying the template",
    )
    ∷ (codes "DNS Record", codes "DNS Record")
    ∷ (codes "Help", codes "Help")
    ∷ (codes "Placeholders", codes "Placeholders")
    ∷ (codes "Example", codes "Example")
    ∷ (codes "Applied to", codes "Applied to")
    ∷ (codes "record", codes "record")
    ∷ (codes "Invalid record ID", codes "Invalid record ID")
    ∷ (codes "Record not found", codes "Record not found")
    ∷ (codes "RRSet not found", codes "RRSet not found")
    ∷ (codes "Edit Record", codes "Edit Record")
    ∷ (codes "Name cannot be changed", codes "Name cannot be changed")
    ∷ (codes "Type cannot be changed", codes "Type cannot be changed")
    ∷ (codes "Update Record", codes "Update Record")
    ∷ (codes "Data is required", codes "Data is required")
    ∷ (codes "Error updating record: %s", codes "Error updating record: %s")
    ∷ (codes "Error updating TTL: %s", codes "Error updating TTL: %s")
    ∷ []
